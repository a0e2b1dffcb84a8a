-- ===== src/Client/Calls/EndToEnd.antt =====
-- The client over the reactors: a call through gRPC gives what the storage library gives in process.
use kv_store_v.Base.{
  ℕ, ◌≡◌, refl, ap, subst, ◌∙◌, Bool, true, false, List, [], Option, none, some, if◌then◌else◌,
  Bytes, codes, empty, length, Result, ok, throw, Exn, ◌>>=◌, storage_exception, invalid_argument,
  out_of_range, runtime_error,
}
use kv_store_v.Types.{PromptChunk, empty_chunk, LookupResult, no_blocks}
use kv_store_v.Blob.Name.{Base64Url}
use kv_store_v.Blob.Service.{BlobService, Properties, Download}
use kv_store_v.Store.Lookup.{lookup_tokens}
use kv_store_v.Store.Read as Read
use kv_store_v.Store.Write as Write
use kv_store_v.Service.Messages.{ReadRequest, ProtoChunk, to_proto}
use kv_store_v.Service.Unary.{
  LookupRequest, WriteRequest, Response, Reply, refuse, found_chunk, from_proto, lookup_reactor,
  read_reactor, write_reactor,
}
use kv_store_v.Client.Calls.{
  Impl, ServerMetrics, Elapsed, RpcStatus, TimedResponse, ReadResult, lookup_reply, read_reply,
  write_reply, lookup_request, read_request, write_request, lookup, read_async, write_async,
}
use kv_store_v.Client.Calls.Delivery.{
  IsDelivered, value_or, outcome, guarded_call, usable, initialized_call, guarded_state,
  read_message, seen,
}

module _ (svc : BlobService) (what : Exn → Bytes) (resolved : Bool) (storage_us total_us : ℕ)
    (t : Elapsed) (self : Impl) where
  lookup_outcome :
      (r : Result LookupResult)
      → outcome what
          (λ (x : LookupResult). some x)
          storage_us
          total_us
          (λ (m : Response LookupResult). m)
          (λ c. (lookup_reply t c).0)
          no_blocks
          (λ text m. refl)
          r
        ≡ value_or no_blocks r
  lookup_outcome (ok a) = refl
  lookup_outcome (throw e) = refl

  -- If gRPC carries the answers of the Lookup reactor, then the blocks that the client's Lookup gives are those
  -- that the storage library's Lookup gives for the same tokens and hashes, or none if the library throws; and
  -- none if the client is not initialised, a name or the token list is empty, or the store is not resolved.
  pub lookup-lookup_tokens :
      (base64 : Base64Url) (replies : ℕ → Bytes → Result Properties)
      (stub : LookupRequest → RpcStatus × Response LookupResult)
      (carried : (q : LookupRequest)
        → IsDelivered
            (λ (m : Response LookupResult). m)
            (lookup_reactor svc what resolved storage_us total_us base64 replies q)
            (stub q))
      (partition_key completion_id : Bytes) (tokens hashes : List ℕ)
      → (lookup stub t self partition_key completion_id tokens hashes).0 ≡ (
          if usable self (empty tokens) resolved
          then value_or no_blocks (lookup_tokens svc replies base64 tokens hashes)
          else no_blocks)
  unfolding lookup lookup_reactor
  lookup-lookup_tokens base64 replies stub carried partition_key completion_id tokens hashes =
      initialized_call (LookupResult × ServerMetrics) (λ r. r.0) self.initialized _ _ _ _ _ refl
        (guarded_call what (λ (x : LookupResult). some x) storage_us total_us
            (λ (m : Response LookupResult). m) (λ c. (lookup_reply t c).0) no_blocks
            (λ text m. refl) (codes "tokens list cannot be empty") (empty self.resource_name)
            (empty self.container_name) (empty tokens) resolved
            (lookup_tokens svc replies base64 tokens hashes)
            (stub (lookup_request self partition_key completion_id tokens hashes)) (carried _)
          ∙ rw lookup_outcome refl)

  abbrev ReadOutcome : Result (Bool × PromptChunk) → Type 0
  ReadOutcome r =
      outcome what found_chunk storage_us total_us read_message (λ c. seen (read_reply t c))
        (false, empty_chunk) (λ text m. refl) r
      ≡ value_or (false, empty_chunk) r

  download_outcome :
      (parent hash : Result ℕ) (partition_key body : Bytes)
      → ReadOutcome (
          (do
            p ← parent
            h ← hash
            ok (record empty_chunk {
              partition_key = partition_key;
              parent_hash = p;
              hash = h;
              buffer = body;
              buffer_size = length body;
            }))
          >>= λ chunk. ok (true, chunk))
  download_outcome (throw e) hash partition_key body = refl
  download_outcome (ok p) (throw e) partition_key body = refl
  download_outcome (ok p) (ok h) partition_key body = refl

  read_outcome : (r : Result Download) → ReadOutcome (Read.read_reply svc r)
  unfolding Read.read_reply
  read_outcome (ok d) = download_outcome _ _ _ _
  read_outcome (throw (storage_exception status)) = refl
  read_outcome (throw invalid_argument) = refl
  read_outcome (throw out_of_range) = refl
  read_outcome (throw (runtime_error text)) = refl

  -- If gRPC carries the answers of the Read reactor, then the success and the chunk that the client's ReadAsync
  -- gives are those that the storage library's ReadAsync gives for the same location, and the container is
  -- as the library leaves it. If the library throws, the client gives no success and an empty chunk; so it
  -- does, with the container unchanged, if the client is not initialised, a name or the location is empty,
  -- or the store is not resolved.
  pub read_async-read_async :
      (stub : ReadRequest → svc.State → (RpcStatus × TimedResponse) × svc.State)
      (carried : (q : ReadRequest) (s : svc.State)
        → IsDelivered read_message
            (read_reactor svc what resolved storage_us total_us q s).0
            (stub q s).0
          × ((stub q s).1 ≡ (read_reactor svc what resolved storage_us total_us q s).1))
      (location completion_id : Bytes) (s : svc.State)
      → (seen (read_async stub t self location completion_id s).0 ≡ (
          if usable self (empty location) resolved
          then value_or (false, empty_chunk) (Read.read_async svc location s).0
          else (false, empty_chunk)))
        × ((read_async stub t self location completion_id s).1 ≡ (
            if usable self (empty location) resolved
            then (Read.read_async svc location s).1
            else s))
  unfolding read_async read_reactor Read.read_async
  read_async-read_async stub carried location completion_id s = (
    initialized_call (ReadResult × svc.State) (λ r. seen r.0) self.initialized _ _ _ _ _ refl
        (guarded_call what found_chunk storage_us total_us read_message (λ c. seen (read_reply t c))
            (false, empty_chunk) (λ text m. refl) (codes "location is required")
            (empty self.resource_name) (empty self.container_name) (empty location) resolved
            (Read.read_async svc location s).0 (stub (read_request self location completion_id) s).0
            (subst
              (λ (r : Reply (Option ProtoChunk) × svc.State).
                IsDelivered read_message r.0 (stub (read_request self location completion_id) s).0)
              (guarded_state (empty self.resource_name) (empty self.container_name) (empty location)
                resolved _ _ _ _ _ s _)
              (carried _ s).0)
          ∙ rw read_outcome refl),
    initialized_call (ReadResult × svc.State) (λ r. r.1) self.initialized _ _ _ _ _ refl
        ((carried _ s).1
          ∙ ap (λ (r : Reply (Option ProtoChunk) × svc.State). r.1)
              (guarded_state (empty self.resource_name) (empty self.container_name) (empty location)
                resolved _ _ _ _ _ s _)),
  )

abbrev no_body : {A : Type 0} → A → Option (Unit {0})
no_body a = none

abbrev pub returned {ℓ} : {A : Type ℓ} → Result A → Bool
returned (ok a) = true
returned (throw e) = false

module _ (svc : BlobService) (what : Exn → Bytes) (resolved : Bool) (storage_us total_us : ℕ)
    (t : Elapsed) (self : Impl) (base64 : Base64Url) (guid : Bytes) where
  write_outcome :
      {A : Type 0} (r : Result A)
      → outcome what no_body storage_us total_us
          (λ (m : Response (Unit {0})). m)
          (λ c. returned (write_reply t c))
          false
          (λ text m. refl)
          r
        ≡ returned r
  write_outcome (ok a) = refl
  write_outcome (throw e) = refl

  -- If gRPC carries the answers of the Write reactor, then the client's WriteAsync returns exactly if the client
  -- is initialised, the names are not empty, the store is resolved and the storage library's WriteAsync returns
  -- for the same chunk, with its bufferSize set to the buffer's size; it throws otherwise. The container is
  -- then as the library leaves it, and unchanged where the library is not called.
  pub write_async-write_async :
      (stub : WriteRequest → svc.State → (RpcStatus × Response (Unit {0})) × svc.State)
      (carried : (q : WriteRequest) (s : svc.State)
        → IsDelivered
            (λ (m : Response (Unit {0})). m)
            (write_reactor svc what resolved storage_us total_us base64 guid q s).0
            (stub q s).0
          × ((stub q s).1
              ≡ (write_reactor svc what resolved storage_us total_us base64 guid q s).1))
      (chunk : PromptChunk) (s : svc.State)
      → (returned (write_async stub t self chunk s).0 ≡ (
          if usable self false resolved
          then returned (Write.write_async svc base64 guid (from_proto (to_proto chunk)) s).0
          else false))
        × ((write_async stub t self chunk s).1 ≡ (
            if usable self false resolved
            then (Write.write_async svc base64 guid (from_proto (to_proto chunk)) s).1
            else s))
  unfolding write_async write_reactor
  write_async-write_async stub carried chunk s = (
    initialized_call (Result ServerMetrics × svc.State) (λ r. returned r.0) self.initialized _ _ _ _
        _ refl
        (guarded_call what no_body storage_us total_us (λ (m : Response (Unit {0})). m)
            (λ c. returned (write_reply t c)) false (λ text m. refl) [] (empty self.resource_name)
            (empty self.container_name) false resolved
            (Write.write_async svc base64 guid (from_proto (to_proto chunk)) s).0
            (stub (write_request self chunk) s).0
            (subst
              (λ (r : Reply (Unit {0}) × svc.State).
                IsDelivered (λ (m : Response (Unit {0})). m) r.0
                  (stub (write_request self chunk) s).0)
              (guarded_state (empty self.resource_name) (empty self.container_name) false resolved _
                _ (refuse []) _ _ s _)
              (carried _ s).0)
          ∙ rw write_outcome refl),
    initialized_call (Result ServerMetrics × svc.State) (λ r. r.1) self.initialized _ _ _ _ _ refl
        ((carried _ s).1
          ∙ ap (λ (r : Reply (Unit {0}) × svc.State). r.1)
              (guarded_state (empty self.resource_name) (empty self.container_name) false resolved _
                _ (refuse []) _ _ s _)),
  )
