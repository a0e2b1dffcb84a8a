-- ===== src/Client/Stream.antt =====
-- KVClient/src/KVStoreGrpcClient.cpp: StreamingReadAsync. The stream is an argument: which of its writes
-- succeed, and the responses that it then reads for the requests that were written; so are the elapsed times.
-- The smallest and the summed storage latency, which only the log shows, and the final status are left out.
pub mod Results
pub mod Order
use kv_store_v.Base.{
  ℕ, zero, suc, ◌+◌, ◌-◌, ◌≤◌, ◌≡◌, ◌^◌, refl, ap, ◌∙◌, Bool, true, false, not, ◌&&◌, List, [], ◌∷◌,
  ◌++◌, Option, none, some, map, if◌then◌else◌, ltb, add64, sub64, max, Bytes, length, arith,
  append-nil, append_assoc,
}
use kv_store_v.Types.{PromptChunk, empty_chunk}
use kv_store_v.Service.Messages.{ReadRequest, ReadResponse}
use kv_store_v.Service.Unary as Unary
use kv_store_v.Client.Calls.{
  Impl, ServerMetrics, sent_metrics, sent_chunk, ReadResult, not_found, TimedResponse, read_request,
}
use kv_store_v.Client.Calls.Delivery.{seen}

-- The stream that stub_->StreamingRead gives.
pub record ReaderWriter : Type 0 where
  pub accepts : ℕ → Bool
  pub responses : List ReadRequest → List TimedResponse

-- The requests that are written, up to the first write that fails.
abbrev pub send : (ℕ → Bool) → ℕ → List ReadRequest → List ReadRequest
send accepts i [] = []
send accepts i (q ∷ qs) = if accepts i then q ∷ send accepts (suc i) qs else []

-- The larger of two int64_t.
abbrev pub max_signed : ℕ → ℕ → ℕ
max_signed a b = if ltb (add64 a (2 ^ 63)) (add64 b (2 ^ 63)) then b else a

-- The results, the largest storage latency and the last response's time so far.
pub record Received : Type 0 where
  pub results : List ReadResult
  pub max_storage_us : ℕ
  pub last_chunk_deserialize_us : ℕ

abbrev pub nothing_received : Received
nothing_received = record { results = []; max_storage_us = 0; last_chunk_deserialize_us = 0 }

-- The chunk is copied only if the response has found one.
abbrev pub received_chunk : ReadResponse → PromptChunk
received_chunk response = if response.found then sent_chunk response.chunk else empty_chunk

abbrev pub larger_storage : Option Unary.ServerMetrics → ℕ → ℕ
larger_storage none m = m
larger_storage (some sm) m = max_signed m sm.storage_latency_us

-- One round of the loop that reads the responses.
abbrev pub receive : ℕ → TimedResponse → Received → Received
receive deser_us (response, sm) r = record {
  results =
      r.results
      ++ (
        response.found,
        received_chunk response,
        record (sent_metrics sm) { deserialize_us = deser_us },
      )
        ∷ [];
  max_storage_us = larger_storage sm r.max_storage_us;
  last_chunk_deserialize_us = deser_us;
}

unfoldable pub receive_all : (ℕ → ℕ) → ℕ → List TimedResponse → Received → Received
receive_all deser_us i [] r = r
receive_all deser_us i (response ∷ rest) r =
    receive_all deser_us (suc i) rest (receive (deser_us i) response r)

abbrev pub stream_metrics : ℕ → Received → ServerMetrics → ServerMetrics
stream_metrics stream_us r m = record m {
  client_e2e_us = stream_us;
  storage_latency_us = r.max_storage_us;
  total_latency_us = stream_us;
  overhead_us = sub64 stream_us r.max_storage_us;
  deserialize_us = r.last_chunk_deserialize_us;
  network_us = sub64 (sub64 stream_us r.max_storage_us) r.last_chunk_deserialize_us;
}

-- The first result carries the metrics of the stream.
abbrev pub with_stream_metrics : ℕ → Received → List ReadResult → List ReadResult
with_stream_metrics stream_us r [] = []
with_stream_metrics stream_us r ((found, chunk, metrics) ∷ rest) =
    (found, chunk, stream_metrics stream_us r metrics) ∷ rest

-- `fill` is appended while there are fewer than `n` results.
abbrev pub fill_up {ℓ} : {A : Type ℓ} → A → ℕ → List A → List A
fill_up fill zero rs = rs
fill_up fill (suc n) [] = fill ∷ fill_up fill n []
fill_up fill (suc n) (r ∷ rs) = r ∷ fill_up fill n rs

abbrev pub stream_requests : Impl → Bytes → List Bytes → List ReadRequest
stream_requests self completion_id locations =
    map (λ location. read_request self location completion_id) locations

unfoldable pub stream_results : (ℕ → ℕ) → ℕ → List TimedResponse → List ReadResult
unfolding receive_all
stream_results deser_us stream_us responses =
    let r = receive_all deser_us 0 responses nothing_received in
    with_stream_metrics stream_us r r.results

unfoldable pub streaming_read_async :
    Option ReaderWriter → (ℕ → ℕ) → ℕ → Impl → List Bytes → Bytes → List ReadResult
unfolding stream_results
streaming_read_async none deser_us stream_us self locations completion_id =
    fill_up not_found (length locations) []
streaming_read_async (some stream) deser_us stream_us self locations completion_id =
    if not self.initialized
    then fill_up not_found (length locations) []
    else fill_up not_found (length locations) (
        stream_results deser_us stream_us
          (stream.responses (send stream.accepts 0 (stream_requests self completion_id locations))))
