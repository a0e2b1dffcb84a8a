-- ===== src/Service/Streaming/Order.antt =====
-- Responses leave the reactor in the order in which they were queued.
use kv_store_v.Base.{
  ◌-◌, false, List, [], ◌∷◌, ◌++◌, ◌≡◌, refl, sym, ◌∙◌, if◌then◌else◌, codes, arith, append_assoc,
  append-nil,
}
use kv_store_v.Service.Messages.{ReadResponse, failed_read}
use kv_store_v.Service.Streaming.{
  Stream, Event, processing, step, try_send_next_response, process_request, on_read_end,
  on_write_done, on_worker_end, push, send, is_incomplete, request_read, read_started, read_ended,
  write_done, worker_ended, stream_done,
}

-- The responses that an event adds, in words of its arguments.
abbrev pub answers : Event → Stream → List ReadResponse
answers (request_read request resolved) s =
    if is_incomplete request
    then failed_read (codes "Invalid request: missing required fields") ∷ []
    else if resolved
    then []
    else failed_read (codes "Failed to initialize storage") ∷ []
answers (worker_ended response) s = if s.shutdown then [] else response ∷ []
answers _ s = []

try_send-order :
    (s : Stream)
    → (try_send_next_response s).sent ++ (try_send_next_response s).response_queue
      ≡ s.sent ++ s.response_queue
unfolding try_send_next_response
try_send-order s = ground (arith, sends s.response_queue refl)
  where
    sends :
        (queue : List ReadResponse)
        → s.response_queue ≡ queue
        → (send queue s).sent ++ (send queue s).response_queue ≡ s.sent ++ queue
    sends [] h = rw h
    sends (r ∷ queue) h = append_assoc s.sent (r ∷ []) queue

push-order :
    (r : ReadResponse) (s : Stream)
    → (push r s).sent ++ (push r s).response_queue ≡ (s.sent ++ s.response_queue) ++ r ∷ []
push-order r s =
    try_send-order (record s { response_queue = s.response_queue ++ r ∷ [] })
    ∙ sym (append_assoc s.sent s.response_queue (r ∷ []))

-- Every event appends its answers behind all earlier responses, whether those are sent or still queued:
-- none is lost, doubled or overtaken.
pub step-order :
    (e : Event) (s : Stream)
    → (step e s).sent ++ (step e s).response_queue ≡ (s.sent ++ s.response_queue) ++ answers e s
unfolding step process_request on_read_end on_write_done on_worker_end
step-order (request_read request resolved) s = ground (
  arith,
  append-nil (s.sent ++ s.response_queue),
  push-order (failed_read (codes "Invalid request: missing required fields"))
      (record s { reading = processing }),
  push-order (failed_read (codes "Failed to initialize storage"))
      (record s { reading = processing }),
)
step-order read_started s = sym (append-nil (s.sent ++ s.response_queue))
step-order read_ended s = ground (arith, append-nil (s.sent ++ s.response_queue))
step-order (write_done succeeded) s = ground (
  arith,
  append-nil (s.sent ++ s.response_queue),
  try_send-order (record s {
    pending_writes = s.pending_writes - 1;
    write_in_progress = false;
    writing = false;
  }),
)
step-order (worker_ended response) s =
    ground (arith, append-nil (s.sent ++ s.response_queue), push-order response s)
step-order stream_done s = sym (append-nil (s.sent ++ s.response_queue))
