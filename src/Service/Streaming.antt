-- ===== src/Service/Streaming.antt =====
-- KVService/src/reactors/StreamingReadReactor.cpp: the reactor of the StreamingRead call as a state
-- machine. Each event is one callback of gRPC or the end of one worker thread, down to the release of
-- the mutex; a Finish that follows the release belongs to the event.
pub mod Order
pub mod Finish
pub mod Delivery
pub mod Once
use kv_store_v.Base.{
  ℕ, suc, ◌+◌, ◌-◌, Bool, true, false, not, ◌&&◌, ◌||◌, List, [], ◌∷◌, ◌++◌, ◌==◌, ◌≡◌, ◌≢◌,
  if◌then◌else◌, Bytes, codes, empty,
}
use kv_store_v.Service.Messages.{
  GrpcStatus, ok_status, internal_status, ReadRequest, ReadResponse, failed_read,
}

-- Where the stream's single outstanding read stands: gRPC holds it, its request is being processed, or
-- the client is done.
pub data Reading : Type 0 where
  outstanding processing ended : Reading

-- The members of the reactor, and behind them what its calls to gRPC and to std::thread have done:
-- `writing` from a StartWrite to its OnWriteDone, `threads` the workers that have not ended, `sent` the
-- arguments of StartWrite and `finished` those of Finish, both in order.
pub record Stream : Type 0 where
  pub response_queue : List ReadResponse
  pub write_in_progress : Bool
  pub client_done : Bool
  pub shutdown : Bool
  pub pending_writes : ℕ
  pub active_threads : ℕ
  pub reading : Reading
  pub writing : Bool
  pub threads : ℕ
  pub sent : List ReadResponse
  pub finished : List GrpcStatus

-- The constructor's last act is StartRead.
abbrev pub start : Stream
start = record {
  response_queue = [];
  write_in_progress = false;
  client_done = false;
  shutdown = false;
  pending_writes = 0;
  active_threads = 0;
  reading = outstanding;
  writing = false;
  threads = 0;
  sent = [];
  finished = [];
}

abbrev pub finish : GrpcStatus → Stream → Stream
finish status s = record s { finished = s.finished ++ status ∷ [] }

abbrev pub send : List ReadResponse → Stream → Stream
send [] s = s
send (response ∷ rest) s = record s {
  response_queue = rest;
  write_in_progress = true;
  pending_writes = s.pending_writes + 1;
  writing = true;
  sent = s.sent ++ response ∷ [];
}

unfoldable pub try_send_next_response : Stream → Stream
try_send_next_response s = if s.write_in_progress then s else send s.response_queue s

abbrev pub push : ReadResponse → Stream → Stream
push response s =
    try_send_next_response (record s { response_queue = s.response_queue ++ response ∷ [] })

abbrev pub is_incomplete : ReadRequest → Bool
is_incomplete r = empty r.resource_name || empty r.container_name || empty r.location

-- `resolved` tells whether ResolveStore gave a store.
unfoldable pub process_request : ReadRequest → Bool → Stream → Stream
process_request request resolved s =
    if is_incomplete request
    then push (failed_read (codes "Invalid request: missing required fields")) s
    else if not resolved
    then push (failed_read (codes "Failed to initialize storage")) s
    else record s { active_threads = s.active_threads + 1; threads = s.threads + 1 }

-- OnReadDone(false)
unfoldable pub on_read_end : Stream → Stream
on_read_end s =
    let done : Stream = record s { client_done = true; reading = ended } in
    if s.pending_writes == 0 && s.active_threads == 0 then finish ok_status done else done

-- OnReadDone(true), up to StartRead
abbrev pub on_request : ReadRequest → Bool → Stream → Stream
on_request request resolved s = process_request request resolved (record s { reading = processing })

-- StartRead at the end of OnReadDone(true)
abbrev pub start_read : Stream → Stream
start_read s = record s { reading = outstanding }

-- Everything is answered: OnWriteDone and the workers call Finish then.
abbrev pub all_done : Stream → Bool
all_done s =
    s.client_done && s.pending_writes == 0 && s.active_threads == 0 && empty s.response_queue

unfoldable pub on_write_done : Bool → Stream → Stream
on_write_done succeeded s =
    let freed : Stream = record s {
      pending_writes = s.pending_writes - 1;
      write_in_progress = false;
      writing = false;
    } in
    if not succeeded
    then finish (internal_status (codes "Write failed")) freed
    else (let tried = try_send_next_response freed in
        if all_done tried then finish ok_status tried else tried)

abbrev pub less_worker : Stream → Stream
less_worker s = record s { active_threads = s.active_threads - 1; threads = s.threads - 1 }

-- The end of a worker, which brings its response.
unfoldable pub on_worker_end : ReadResponse → Stream → Stream
on_worker_end response s =
    let ended = less_worker (push response s) in
    if s.shutdown then less_worker s else if all_done ended then finish ok_status ended else ended

-- OnDone, up to its wait for the workers
abbrev pub on_done : Stream → Stream
on_done s = record s { shutdown = true }

pub data Event : Type 0 where
  request_read : ReadRequest → Bool → Event
  read_started read_ended : Event
  write_done : Bool → Event
  worker_ended : ReadResponse → Event
  stream_done : Event

unfoldable pub step : Event → Stream → Stream
step (request_read request resolved) s = on_request request resolved s
step read_started s = start_read s
step read_ended s = on_read_end s
step (write_done succeeded) s = on_write_done succeeded s
step (worker_ended response) s = on_worker_end response s
step stream_done s = on_done s

-- When gRPC or a thread can bring the event about.
unfoldable pub Enabled : Event → Stream → Type 0
Enabled (request_read request resolved) s = s.reading ≡ outstanding
Enabled read_started s = s.reading ≡ processing
Enabled read_ended s = s.reading ≡ outstanding
Enabled (write_done succeeded) s = s.writing ≡ true
Enabled (worker_ended response) s = s.threads ≢ 0
Enabled stream_done s =
    (s.finished ≢ []) × (s.writing ≡ false) × (s.reading ≢ outstanding) × (s.reading ≢ processing)

-- The states that sequences of events lead to.
pub data Reachable : Stream → Type 0 where
  started : Reachable start
  continued : (e : Event) (s : Stream) → Enabled e s → Reachable s → Reachable (step e s)

-- Those that no failed write leads to.
pub data ReachableUnbroken : Stream → Type 0 where
  started : ReachableUnbroken start
  continued :
      (e : Event) (s : Stream)
      → Enabled e s
      → e ≢ write_done false
      → ReachableUnbroken s
      → ReachableUnbroken (step e s)
