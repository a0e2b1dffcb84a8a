-- ===== src/Service/Streaming/Delivery.antt =====
-- What sending the next response does to the reactor's state.
use kv_store_v.Base.{false, List, [], ◌∷◌, ◌++◌, ◌≡◌, refl, if-cases}
use kv_store_v.Service.Messages.{ReadResponse}
use kv_store_v.Service.Streaming.{Stream, try_send_next_response, push, send}

-- What a send leaves alone, and that it leaves no response behind an idle stream.
pub record IsDelivery (s t : Stream) : Type 0 where
  pub client_done_kept : t.client_done ≡ s.client_done
  pub shutdown_kept : t.shutdown ≡ s.shutdown
  pub active_kept : t.active_threads ≡ s.active_threads
  pub finished_kept : t.finished ≡ s.finished
  pub no_rest : t.write_in_progress ≡ false → t.response_queue ≡ []

send-IsDelivery :
    (queue : List ReadResponse) (s : Stream)
    → s.response_queue ≡ queue
    → IsDelivery s (send queue s)
send-IsDelivery [] s h = record {
  client_done_kept = refl;
  shutdown_kept = refl;
  active_kept = refl;
  finished_kept = refl;
  no_rest = λ _. h;
}
send-IsDelivery (r ∷ rest) s h = record {
  client_done_kept = refl;
  shutdown_kept = refl;
  active_kept = refl;
  finished_kept = refl;
  no_rest = λ e. cc;
}

pub try_send-IsDelivery : (s : Stream) → IsDelivery s (try_send_next_response s)
unfolding try_send_next_response
try_send-IsDelivery s =
    if-cases (IsDelivery s) s.write_in_progress
      (λ busy. record {
        client_done_kept = refl;
        shutdown_kept = refl;
        active_kept = refl;
        finished_kept = refl;
        no_rest = λ e. cc;
      })
      (λ free. send-IsDelivery s.response_queue s refl)

pub push-IsDelivery : (r : ReadResponse) (s : Stream) → IsDelivery s (push r s)
push-IsDelivery r s =
    let k = try_send-IsDelivery (record s { response_queue = s.response_queue ++ r ∷ [] }) in
    record {
      client_done_kept = k.client_done_kept;
      shutdown_kept = k.shutdown_kept;
      active_kept = k.active_kept;
      finished_kept = k.finished_kept;
      no_rest = k.no_rest;
    }
