-- ===== src/Service/Streaming/Finish.antt =====
-- The reactor's counters agree with what gRPC and the threads hold, and when it calls Finish.
use kv_store_v.Base.{
  ◌+◌, ◌-◌, Bool, true, false, not, ◌&&◌, List, [], ◌∷◌, ◌++◌, ◌==◌, ◌≡◌, refl, ap, if-cases,
  if◌then◌else◌, arith,
}
use kv_store_v.Service.Messages.{ReadResponse, GrpcStatus, ok_status}
use kv_store_v.Service.Streaming.{
  Stream, Event, Reading, processing, ended, step, Enabled, Reachable, started, continued,
  try_send_next_response, process_request, on_read_end, on_write_done, on_worker_end, less_worker,
  push, send, finish, all_done, is_incomplete, request_read, read_started, read_ended, write_done,
  worker_ended, stream_done,
}

abbrev pub is_ended : Reading → Bool
is_ended ended = true
is_ended _ = false

-- The counters are those of the outstanding write and of the running workers.
pub record IsConsistent (s : Stream) : Type 0 where
  pub flag : s.write_in_progress ≡ s.writing
  pub pending : s.pending_writes ≡ (if s.writing then 1 else 0)
  pub active : s.active_threads ≡ s.threads
  pub client : s.client_done ≡ is_ended s.reading

send-IsConsistent :
    (queue : List ReadResponse) (s : Stream)
    → s.write_in_progress ≡ false
    → IsConsistent s
    → IsConsistent (send queue s)
send-IsConsistent [] s free c = c
send-IsConsistent (r ∷ rest) s free c = record {
  flag = refl;
  pending = ground (arith, c.flag, c.pending);
  active = c.active;
  client = c.client;
}

pub try_send-IsConsistent : (s : Stream) → IsConsistent s → IsConsistent (try_send_next_response s)
unfolding try_send_next_response
try_send-IsConsistent s c =
    if-cases IsConsistent s.write_in_progress (λ busy. c)
      (λ free. send-IsConsistent s.response_queue s free c)

pub push-IsConsistent : (r : ReadResponse) (s : Stream) → IsConsistent s → IsConsistent (push r s)
push-IsConsistent r s c =
    try_send-IsConsistent (record s { response_queue = s.response_queue ++ r ∷ [] })
      (record { flag = c.flag; pending = c.pending; active = c.active; client = c.client })

finish-IsConsistent : (st : GrpcStatus) (s : Stream) → IsConsistent s → IsConsistent (finish st s)
finish-IsConsistent st s c = record {
  flag = c.flag;
  pending = c.pending;
  active = c.active;
  client = c.client;
}

-- What a callback finds after it took the write out of the way.
unfoldable pub freed : Stream → Stream
freed s = record s {
  pending_writes = s.pending_writes - 1;
  write_in_progress = false;
  writing = false;
}

pub freed-IsConsistent : (s : Stream) → s.writing ≡ true → IsConsistent s → IsConsistent (freed s)
unfolding freed
freed-IsConsistent s h c = record {
  flag = refl;
  pending = ground (arith, c.pending);
  active = c.active;
  client = c.client;
}

pub less_worker-IsConsistent : (s : Stream) → IsConsistent s → IsConsistent (less_worker s)
less_worker-IsConsistent s c = record {
  flag = c.flag;
  pending = c.pending;
  active = ap (λ n. n - 1) c.active;
  client = c.client;
}

-- Every event that can occur keeps the counters right.
pub step-IsConsistent :
    (e : Event) (s : Stream) → Enabled e s → IsConsistent s → IsConsistent (step e s)
unfolding step Enabled process_request on_read_end on_write_done on_worker_end freed
step-IsConsistent (request_read request resolved) s h c =
    if-cases IsConsistent (is_incomplete request) (λ _. push-IsConsistent _ taken c')
      (λ _.
        if-cases IsConsistent (not resolved) (λ _. push-IsConsistent _ taken c')
          (λ _. record {
            flag = c'.flag;
            pending = c'.pending;
            active = ap (λ n. n + 1) c'.active;
            client = c'.client;
          }))
  where
    taken : Stream
    taken = record s { reading = processing }

    c' : IsConsistent taken
    c' = record {
      flag = c.flag;
      pending = c.pending;
      active = c.active;
      client = ground (arith, c.client);
    }
step-IsConsistent read_started s h c = record {
  flag = c.flag;
  pending = c.pending;
  active = c.active;
  client = ground (arith, c.client);
}
step-IsConsistent read_ended s h c =
    if-cases IsConsistent (s.pending_writes == 0 && s.active_threads == 0)
      (λ _. finish-IsConsistent ok_status done c') (λ _. c')
  where
    done : Stream
    done = record s { client_done = true; reading = ended }

    c' : IsConsistent done
    c' = record { flag = c.flag; pending = c.pending; active = c.active; client = refl }
step-IsConsistent (write_done succeeded) s h c =
    if-cases IsConsistent (not succeeded) (λ _. finish-IsConsistent _ _ (freed-IsConsistent s h c))
      (λ _. if-cases IsConsistent (all_done tried) (λ _. finish-IsConsistent _ tried c') (λ _. c'))
  where
    tried : Stream
    tried = try_send_next_response (freed s)

    c' : IsConsistent tried
    c' = try_send-IsConsistent (freed s) (freed-IsConsistent s h c)
step-IsConsistent (worker_ended response) s h c =
    if-cases IsConsistent s.shutdown (λ _. less_worker-IsConsistent s c)
      (λ _.
        if-cases IsConsistent (all_done ended') (λ _. finish-IsConsistent _ ended' c') (λ _. c'))
  where
    ended' : Stream
    ended' = less_worker (push response s)

    c' : IsConsistent ended'
    c' = less_worker-IsConsistent (push response s) (push-IsConsistent response s c)
step-IsConsistent stream_done s h c = record {
  flag = c.flag;
  pending = c.pending;
  active = c.active;
  client = c.client;
}

-- In every reachable state, failed writes included, at most one write is pending: pending_writes_ is 1 with
-- an outstanding StartWrite and 0 without, write_in_progress_ tells which, active_threads_ counts the
-- workers that have not ended, and client_done_ is set once no further read will come.
pub Reachable-counters :
    (s : Stream)
    → Reachable s
    → (s.write_in_progress ≡ s.writing)
      × (s.pending_writes ≡ (if s.writing then 1 else 0))
      × (s.active_threads ≡ s.threads)
      × (s.client_done ≡ is_ended s.reading)
Reachable-counters s r = let c = consistent s r in (c.flag, c.pending, c.active, c.client)
  where
    consistent : (t : Stream) → Reachable t → IsConsistent t
    consistent t started = record { flag = refl; pending = refl; active = refl; client = refl }
    consistent t (continued e u h before) = step-IsConsistent e u h (consistent u before)
