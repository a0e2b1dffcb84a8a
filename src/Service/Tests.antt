-- ===== src/Service/Tests.antt =====
-- The service's theorems at concrete inputs.
use kv_store_v.Base.{◌≡◌, ◌≢◌, refl, ◌++◌, [], ◌∷◌, true, false, codes, if◌then◌else◌, ◌==◌, ◌&&◌}
use kv_store_v.Service.Messages.{ReadRequest, failed_read, internal_status, ok_status}
use kv_store_v.Service.Streaming.{
  Stream, start, step, Enabled, started, continued, request_read, read_ended, write_done,
}
use kv_store_v.Service.Streaming.Order.{answers, step-order}
use kv_store_v.Service.Streaming.Finish.{is_ended, Reachable-counters}
use kv_store_v.Service.Streaming.Once.{reachable-finish, finish_twice}

abbrev incomplete : ReadRequest
incomplete = record {
  resource_name = [];
  container_name = codes "c";
  location = codes "l";
  completion_id = [];
}

-- A request without a resource name, whose answer is being sent.
abbrev answering : Stream
answering = step (request_read incomplete true) start

asked : Enabled (request_read incomplete true) start
unfolding Enabled
asked = refl

not_failed : request_read incomplete true ≢ write_done false
not_failed = λ e. cc

step-order_example :
    (step (request_read incomplete true) start).sent
      ++ (step (request_read incomplete true) start).response_queue
    ≡ (start.sent ++ start.response_queue) ++ answers (request_read incomplete true) start
step-order_example = step-order (request_read incomplete true) start

Reachable-counters_example :
    (answering.write_in_progress ≡ answering.writing)
    × (answering.pending_writes ≡ (if answering.writing then 1 else 0))
    × (answering.active_threads ≡ answering.threads)
    × (answering.client_done ≡ is_ended answering.reading)
Reachable-counters_example =
    Reachable-counters answering (continued (request_read incomplete true) start asked started)

reachable-finish_example :
    (answering.finished ≡ (
      if answering.client_done && answering.pending_writes == 0 && answering.active_threads == 0
      then ok_status ∷ []
      else []))
    × (answering.response_queue ≡ (if answering.writing then answering.response_queue else []))
reachable-finish_example =
    reachable-finish answering
      (continued (request_read incomplete true) start asked not_failed started)

-- The stream in the middle of its first write.
abbrev writing_one : Stream
writing_one = record start {
  write_in_progress = true;
  pending_writes = 1;
  writing = true;
  sent = failed_read (codes "e") ∷ [];
}

finish_twice_example :
    (step read_ended (step (write_done false) writing_one)).finished
    ≡ writing_one.finished ++ (internal_status (codes "Write failed") ∷ ok_status ∷ [])
finish_twice_example = finish_twice writing_one refl refl
