-- ===== src/Service/Streaming/Once.antt =====
-- Without a failed write, the reactor calls Finish once, at the moment when nothing is left to do.
use kv_store_v.Base.{
  ◌+◌, Bool, true, false, not, ◌&&◌, [], ◌∷◌, ◌++◌, ◌==◌, ◌≡◌, ◌≢◌, refl, sym, ap, ◌∙◌, if-cases,
  if◌then◌else◌, arith, codes, append_assoc,
}
use kv_store_v.Service.Messages.{ReadResponse, ok_status, internal_status}
use kv_store_v.Service.Streaming.{
  Stream, Event, processing, step, Enabled, ReachableUnbroken, started, continued,
  try_send_next_response, process_request, on_read_end, on_write_done, on_worker_end, less_worker,
  push, finish, all_done, is_incomplete, request_read, read_started, read_ended, write_done,
  worker_ended, stream_done,
}
use kv_store_v.Service.Streaming.Finish.{
  IsConsistent, freed, try_send-IsConsistent, push-IsConsistent, freed-IsConsistent,
  less_worker-IsConsistent, step-IsConsistent,
}
use kv_store_v.Service.Streaming.Delivery.{IsDelivery, try_send-IsDelivery, push-IsDelivery}

-- The client is done and nothing is outstanding.
abbrev pub is_idle : Stream → Bool
is_idle s = s.client_done && s.pending_writes == 0 && s.active_threads == 0

pub record IsSettled (s : Stream) : Type 0 where
  pub drained : s.writing ≡ false → s.response_queue ≡ []
  pub once : s.finished ≡ (if is_idle s then ok_status ∷ [] else [])
  pub closed : s.shutdown ≡ true → is_idle s ≡ true

-- An event that finds the stream open and then finishes exactly if all is done settles it.
closes :
    (t : Stream)
    → IsConsistent t
    → (t.write_in_progress ≡ false → t.response_queue ≡ [])
    → t.finished ≡ []
    → t.shutdown ≡ false
    → IsSettled (if all_done t then finish ok_status t else t)
closes t c rest unfinished up =
    if-cases IsSettled (all_done t)
      (λ h. record {
        drained = λ w. ground (arith, c.flag, rest);
        once = ground (arith, unfinished, h);
        closed = λ e. ground (arith);
      })
      (λ h. record {
        drained = λ w. ground (arith, c.flag, rest);
        once = ground (arith, unfinished, h, c.pending, c.flag, rest);
        closed = λ e. ground (arith);
      })

-- Before the client is done, or while a write or a worker is under way, nothing was finished.
open_before :
    (s : Stream) → IsSettled s → is_idle s ≡ false → (s.finished ≡ []) × (s.shutdown ≡ false)
open_before s i h = (ground (arith, i.once, h), ground (arith, i.closed, h))

-- While the client is not done, the stream stays open.
stays :
    (t : Stream)
    → IsConsistent t
    → (t.write_in_progress ≡ false → t.response_queue ≡ [])
    → t.client_done ≡ false
    → t.finished ≡ []
    → t.shutdown ≡ false
    → IsSettled t
stays t c rest talking unfinished up = record {
  drained = λ w. ground (arith, c.flag, rest);
  once = ground (arith, unfinished, talking);
  closed = λ e. cc;
}

pub step-IsSettled :
    (e : Event) (s : Stream)
    → Enabled e s
    → e ≢ write_done false
    → IsConsistent s
    → IsSettled s
    → IsSettled (step e s)
unfolding step Enabled process_request on_read_end on_write_done on_worker_end freed
step-IsSettled (request_read request resolved) s h ok c i =
    if-cases IsSettled (is_incomplete request) (λ _. pushed _)
      (λ _.
        if-cases IsSettled (not resolved) (λ _. pushed _)
          (λ _.
            stays _
              (record {
                flag = c'.flag;
                pending = c'.pending;
                active = ap (λ n. n + 1) c'.active;
                client = c'.client;
              })
              (λ e. i.drained (sym c.flag ∙ e)) talking unfinished.0 unfinished.1))
  where
    talking : s.client_done ≡ false
    talking = ground (arith, c.client)

    unfinished : (s.finished ≡ []) × (s.shutdown ≡ false)
    unfinished = open_before s i (ground (arith, talking))

    taken : Stream
    taken = record s { reading = processing }

    c' : IsConsistent taken
    c' = record { flag = c.flag; pending = c.pending; active = c.active; client = talking }

    pushed : (r : ReadResponse) → IsSettled (push r taken)
    pushed r =
        let k = push-IsDelivery r taken in
        stays (push r taken) (push-IsConsistent r taken c') k.no_rest (k.client_done_kept ∙ talking)
          (k.finished_kept ∙ unfinished.0) (k.shutdown_kept ∙ unfinished.1)
step-IsSettled read_started s h ok c i = record {
  drained = i.drained;
  once = i.once;
  closed = i.closed;
}
step-IsSettled read_ended s h ok c i =
    if-cases IsSettled (s.pending_writes == 0 && s.active_threads == 0)
      (λ e. record {
        drained = i.drained;
        once = ground (arith, unfinished.0, e);
        closed = λ _. ground arith;
      })
      (λ e. record {
        drained = i.drained;
        once = ground (arith, unfinished.0, e);
        closed = λ down. ground (arith, unfinished.1, down);
      })
  where
    unfinished : (s.finished ≡ []) × (s.shutdown ≡ false)
    unfinished = open_before s i (ground (arith, c.client, h))
step-IsSettled (write_done false) s h ok c i = absurd (ok refl)
step-IsSettled (write_done true) s h ok c i =
    let k = try_send-IsDelivery (freed s) in
    closes (try_send_next_response (freed s))
      (try_send-IsConsistent (freed s) (freed-IsConsistent s h c)) k.no_rest
      (k.finished_kept ∙ unfinished.0) (k.shutdown_kept ∙ unfinished.1)
  where
    unfinished : (s.finished ≡ []) × (s.shutdown ≡ false)
    unfinished = open_before s i (ground (arith, c.pending, h))
step-IsSettled (worker_ended response) s h ok c i =
    if-cases IsSettled s.shutdown (λ down. absurd (ground (arith, unfinished.1, down)))
      (λ _.
        closes (less_worker (push response s))
          (less_worker-IsConsistent (push response s) (push-IsConsistent response s c)) k.no_rest
          (k.finished_kept ∙ unfinished.0) (k.shutdown_kept ∙ unfinished.1))
  where
    unfinished : (s.finished ≡ []) × (s.shutdown ≡ false)
    unfinished = open_before s i (ground (arith, c.active, h))

    k : IsDelivery s (push response s)
    k = push-IsDelivery response s
step-IsSettled stream_done s h ok c i = record {
  drained = i.drained;
  once = i.once;
  closed = λ _. ground (arith, i.once, h.0);
}

-- In every state that is reached without a failed write, Finish has been called exactly once, with OK, if
-- the client is done, no write is pending and no worker runs, and not at all otherwise. When a write is not
-- under way, no response waits.
pub reachable-finish :
    (s : Stream)
    → ReachableUnbroken s
    → (s.finished ≡ (
        if s.client_done && s.pending_writes == 0 && s.active_threads == 0
        then ok_status ∷ []
        else []))
      × (s.response_queue ≡ (if s.writing then s.response_queue else []))
reachable-finish s r = let (c, i) = both s r in (i.once, ground (arith, i.drained))
  where
    both : (t : Stream) → ReachableUnbroken t → IsConsistent t × IsSettled t
    both t started = (
      record { flag = refl; pending = refl; active = refl; client = refl },
      record { drained = λ _. refl; once = refl; closed = λ e. cc },
    )
    both t (continued e u h ok before) =
        let (c, i) = both u before in (step-IsConsistent e u h c, step-IsSettled e u h ok c i)

-- After a failed write Finish is called again: if no worker runs, the client's end finishes the stream a
-- second time.
pub finish_twice :
    (s : Stream)
    → s.pending_writes ≡ 1
    → s.active_threads ≡ 0
    → (step read_ended (step (write_done false) s)).finished
      ≡ s.finished ++ (internal_status (codes "Write failed") ∷ ok_status ∷ [])
unfolding step on_write_done on_read_end
finish_twice s p a =
    ground (
      arith,
      append_assoc s.finished (internal_status (codes "Write failed") ∷ []) (ok_status ∷ []),
    )
