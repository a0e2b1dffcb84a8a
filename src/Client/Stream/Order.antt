-- ===== src/Client/Stream/Order.antt =====
-- The results of StreamingReadAsync against the storage library's ReadAsync, for a server that may reorder.
use mathlib.Core.List.Perm
use mathlib.Core.List.{Perm}
use kv_store_v.Base.Perms.{Perm-length}
use kv_store_v.Base.{
  ℕ, suc, ◌≤◌, ◌≡◌, refl, sym, ap, subst, ◌∙◌, Bool, true, false, List, [], ◌∷◌, some, map, Bytes,
  length, length-map, arith, Result, ok, throw, Exn, ◌>>=◌, storage_exception, invalid_argument,
  out_of_range, runtime_error,
}
use kv_store_v.Types.{PromptChunk, empty_chunk}
use kv_store_v.Blob.Service.{BlobService, Download}
use kv_store_v.Store.Read as Read
use kv_store_v.Service.Messages.{ReadRequest, ReadResponse, read_response}
use kv_store_v.Client.Calls.{Impl, TimedResponse, read_request}
use kv_store_v.Client.Calls.Delivery.{seen, value_or}
use kv_store_v.Client.Stream.{
  ReaderWriter, send, received_chunk, stream_requests, streaming_read_async,
}
use kv_store_v.Client.Stream.Results.{answered, fill_up_full, streaming_read_async-read_from}

send_all :
    (accepts : ℕ → Bool)
    → ((i : ℕ) → accepts i ≡ true)
    → (i : ℕ) (qs : List ReadRequest) → send accepts i qs ≡ qs
send_all accepts h i [] = refl
send_all accepts h i (q ∷ qs) = rw (h i, send_all accepts h (suc i) qs) refl

abbrev answered_response : ReadResponse → Bool × PromptChunk
answered_response response = (response.found, received_chunk response)

answered_all :
    (responses : List TimedResponse)
    → map answered responses ≡ map answered_response (map (λ r. r.0) responses)
answered_all [] = refl
answered_all (response ∷ rest) = ap (λ t. answered response ∷ t) (answered_all rest)

module _ (svc : BlobService) (what : Exn → Bytes) where
  abbrev IsAnswer : Result (Bool × PromptChunk) → Type 0
  IsAnswer r = answered_response (read_response what r) ≡ value_or (false, empty_chunk) r

  download-IsAnswer :
      (parent hash : Result ℕ) (partition_key body : Bytes)
      → IsAnswer (
          (do
            p ← parent
            h ← hash
            ok (record empty_chunk {
              partition_key = partition_key;
              parent_hash = p;
              hash = h;
              buffer = body;
              buffer_size = length body;
            }))
          >>= λ chunk. ok (true, chunk))
  unfolding read_response
  download-IsAnswer (throw e) hash partition_key body = refl
  download-IsAnswer (ok p) (throw e) partition_key body = refl
  download-IsAnswer (ok p) (ok h) partition_key body = refl

  read_reply-IsAnswer : (r : Result Download) → IsAnswer (Read.read_reply svc r)
  unfolding Read.read_reply read_response
  read_reply-IsAnswer (ok d) = download-IsAnswer _ _ _ _
  read_reply-IsAnswer (throw (storage_exception status)) = refl
  read_reply-IsAnswer (throw invalid_argument) = refl
  read_reply-IsAnswer (throw out_of_range) = refl
  read_reply-IsAnswer (throw (runtime_error text)) = refl

  -- What the storage library's ReadAsync gives for a location in the container `s`.
  abbrev pub library_read : svc.State → Bytes → Result (Bool × PromptChunk)
  library_read s location = (Read.read_async svc location s).0

  answered-library :
      (s : svc.State) (self : Impl) (completion_id : Bytes) (locations : List Bytes)
      → map answered_response (
          map
            (λ q. read_response what (library_read s q.location))
            (stream_requests self completion_id locations))
        ≡ map (λ location. value_or (false, empty_chunk) (library_read s location)) locations
  unfolding Read.read_async
  answered-library s self completion_id [] = refl
  answered-library s self completion_id (location ∷ rest) =
      rw
        (
          read_reply-IsAnswer (svc.download location s).0,
          answered-library s self completion_id rest,
        )
        refl

  -- For an initialised client whose stream takes every request, and a server that answers each request once, in
  -- any order, with what the storage library's ReadAsync gives for its location: the results are, up to
  -- their order, those of the library's ReadAsync at the locations, not found where it throws.
  pub streaming_read_async-Perm :
      (deser_us : ℕ → ℕ) (stream_us : ℕ) (self : Impl) (locations : List Bytes)
      (completion_id : Bytes) (stream : ReaderWriter) (s : svc.State)
      → self.initialized ≡ true
      → ((i : ℕ) → stream.accepts i ≡ true)
      → ((qs : List ReadRequest)
          → Perm
              (map (λ r. r.0) (stream.responses qs))
              (map (λ q. read_response what (library_read s q.location)) qs))
      → Perm
          (map seen
            (streaming_read_async (some stream) deser_us stream_us self locations completion_id))
          (map (λ location. value_or (false, empty_chunk) (library_read s location)) locations)
  streaming_read_async-Perm deser_us stream_us self locations completion_id stream s ready accepted
        served =
      subst
        (λ xs.
          Perm xs
            (map (λ location. value_or (false, empty_chunk) (library_read s location)) locations))
        (sym whole)
        (subst (Perm (map answered (stream.responses requests)))
          (answered-library s self completion_id locations)
          (rw (answered_all (stream.responses requests))
            (Perm.map answered_response (served requests))))
    where
      requests : List ReadRequest
      requests = stream_requests self completion_id locations

      enough : length locations ≤ length (map answered (stream.responses requests))
      enough = omega (
        arith,
        Perm-length (served requests),
        length-map (λ (r : TimedResponse). r.0) (stream.responses requests),
        length-map (λ (q : ReadRequest). read_response what (library_read s q.location)) requests,
        length-map (λ (location : Bytes). read_request self location completion_id) locations,
        length-map answered (stream.responses requests),
      )

      whole :
          map seen
            (streaming_read_async (some stream) deser_us stream_us self locations completion_id)
          ≡ map answered (stream.responses requests)
      whole =
          streaming_read_async-read_from deser_us stream_us self locations completion_id
            (some stream)
          ∙ rw
              (
                ready,
                send_all stream.accepts accepted 0 requests,
                fill_up_full (false, empty_chunk) (length locations)
                    (map answered (stream.responses requests)) enough,
              )
              refl
