-- ===== src/Client/Stream/Results.antt =====
-- The results of StreamingReadAsync against the responses and against the storage library's ReadAsync.
use kv_store_v.Base.{
  ℕ, zero, suc, ◌≤◌, ◌≡◌, refl, ap, ◌∙◌, Bool, true, false, not, List, [], ◌∷◌, ◌++◌, Option, none,
  some, map, if◌then◌else◌, max, Bytes, length, length-map, arith, append-nil,
}
use kv_store_v.Types.{PromptChunk, empty_chunk}
use kv_store_v.Service.Messages.{ReadRequest}
use kv_store_v.Client.Calls.{Impl, ReadResult, not_found, TimedResponse}
use kv_store_v.Client.Calls.Delivery.{seen}
use kv_store_v.Client.Stream.{
  ReaderWriter, send, Received, nothing_received, received_chunk, receive, receive_all,
  with_stream_metrics, fill_up, stream_requests, stream_results, streaming_read_async,
}

map_snoc {ℓ κ} :
    {A : Type ℓ} {B : Type κ} (f : A → B) (xs : List A) (x : A) (ys : List B)
    → map f (xs ++ x ∷ []) ++ ys ≡ map f xs ++ f x ∷ ys
map_snoc f [] x ys = refl
map_snoc f (y ∷ xs) x ys = ap (λ t. f y ∷ t) (map_snoc f xs x ys)

module _ {ℓ} {A : Type ℓ} (fill : A) where
  length-fill_up : (n : ℕ) (rs : List A) → length (fill_up fill n rs) ≡ max n (length rs)
  length-fill_up zero rs = omega arith
  length-fill_up (suc n) [] = omega (arith, length-fill_up n [])
  length-fill_up (suc n) (r ∷ rs) = omega (arith, length-fill_up n rs)

  pub fill_up_full : (n : ℕ) (rs : List A) → n ≤ length rs → fill_up fill n rs ≡ rs
  fill_up_full zero rs h = refl
  fill_up_full (suc n) [] h = absurd (omega arith)
  fill_up_full (suc n) (r ∷ rs) h = ap (λ (t : List A). r ∷ t) (fill_up_full n rs (omega arith))

  map-fill_up {κ} :
      {B : Type κ} (f : A → B) (n : ℕ) (rs : List A)
      → map f (fill_up fill n rs) ≡ fill_up (f fill) n (map f rs)
  map-fill_up f zero rs = refl
  map-fill_up f (suc n) [] = ap (λ t. f fill ∷ t) (map-fill_up f n [])
  map-fill_up f (suc n) (r ∷ rs) = ap (λ t. f r ∷ t) (map-fill_up f n rs)

-- What the client makes of a response, besides the metrics.
abbrev pub answered : TimedResponse → Bool × PromptChunk
answered (response, sm) = (response.found, received_chunk response)

receive_all-seen :
    (deser_us : ℕ → ℕ) (i : ℕ) (responses : List TimedResponse) (r : Received)
    → map seen (receive_all deser_us i responses r).results
      ≡ map seen r.results ++ map answered responses
unfolding receive_all
receive_all-seen deser_us i [] r = rw append-nil refl
receive_all-seen deser_us i (response ∷ rest) r =
    receive_all-seen deser_us (suc i) rest (receive (deser_us i) response r)
    ∙ map_snoc seen r.results _ (map answered rest)

with_stream_metrics-seen :
    (stream_us : ℕ) (r : Received) (rs : List ReadResult)
    → map seen (with_stream_metrics stream_us r rs) ≡ map seen rs
with_stream_metrics-seen stream_us r [] = refl
with_stream_metrics-seen stream_us r ((found, chunk, metrics) ∷ rest) = refl

stream_results-seen :
    (deser_us : ℕ → ℕ) (stream_us : ℕ) (responses : List TimedResponse)
    → map seen (stream_results deser_us stream_us responses) ≡ map answered responses
unfolding stream_results
stream_results-seen deser_us stream_us responses =
    with_stream_metrics-seen stream_us (receive_all deser_us 0 responses nothing_received) _
    ∙ receive_all-seen deser_us 0 responses nothing_received

-- The responses that are read: none without a stream, or before Initialize.
abbrev pub read_from : Option ReaderWriter → Impl → List ReadRequest → List TimedResponse
read_from none self requests = []
read_from (some stream) self requests =
    if self.initialized then stream.responses (send stream.accepts 0 requests) else []

module _ (deser_us : ℕ → ℕ) (stream_us : ℕ) (self : Impl) (locations : List Bytes)
    (completion_id : Bytes) where
  abbrev results_of : List TimedResponse → List ReadResult
  results_of responses =
      fill_up not_found (length locations) (stream_results deser_us stream_us responses)

  read-from :
      (opened : Option ReaderWriter)
      → streaming_read_async opened deser_us stream_us self locations completion_id
        ≡ results_of (read_from opened self (stream_requests self completion_id locations))
  unfolding streaming_read_async stream_results receive_all
  read-from none = refl
  read-from (some stream) = by self.initialized _
    where
      by :
          (b : Bool) (rs : List TimedResponse)
          → (if not b then fill_up not_found (length locations) [] else results_of rs)
            ≡ results_of (if b then rs else [])
      by true rs = refl
      by false rs = refl

  -- The i-th result has found and the chunk of the i-th response that was read, whichever location it
  -- answers; the results behind the last response are not found, with an empty chunk.
  pub streaming_read_async-read_from :
      (opened : Option ReaderWriter)
      → map seen (streaming_read_async opened deser_us stream_us self locations completion_id)
        ≡ fill_up
            (false, empty_chunk)
            (length locations)
            (map answered (read_from opened self (stream_requests self completion_id locations)))
  streaming_read_async-read_from opened =
      ap (map seen) (read-from opened)
      ∙ (map-fill_up not_found seen (length locations) _
          ∙ ap (fill_up (false, empty_chunk) (length locations))
              (stream_results-seen deser_us stream_us _))

  -- There are as many results as locations, or as responses if the server sends more of them.
  length-streaming_read_async :
      (opened : Option ReaderWriter)
      → length (streaming_read_async opened deser_us stream_us self locations completion_id)
        ≡ max
            (length locations)
            (length (read_from opened self (stream_requests self completion_id locations)))
  length-streaming_read_async opened = omega (
    arith,
    length-map seen (streaming_read_async opened deser_us stream_us self locations completion_id),
    ap length (streaming_read_async-read_from opened),
    length-fill_up (false, empty_chunk) (length locations) (map answered received),
    length-map answered received,
  )
    where
      received : List TimedResponse
      received = read_from opened self (stream_requests self completion_id locations)
