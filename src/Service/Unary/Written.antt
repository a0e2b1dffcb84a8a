-- ===== src/Service/Unary/Written.antt =====
-- When a Write call finishes with OK, and what it leaves alone.
use kv_store_v.Base.{
  ℕ, ◌≡◌, ◌≢◌, ◌↔◌, ◌⊎◌, inl, inr, arith, ap, sym, ◌∙◌, empty_iff, refl, Bool, true, false, not, [],
  ◌∷◌, Option, none, some, if-cases, Bytes, empty, Result, ok, throw, Exn,
}
use kv_store_v.Blob.Name.{Base64Url}
use kv_store_v.Blob.Service.{BlobService}
use kv_store_v.Store.Write.{WriteEnd, write_async}
use kv_store_v.Service.Messages.{ok_status, ProtoChunk}
use kv_store_v.Service.Unary.{
  WriteRequest, Reply, fail, refuse, no_storage, answer, from_proto, write_chunk_reactor,
  write_reactor,
}

module _ (svc : BlobService) (what : Exn → Bytes) (resolved : Bool) (storage_us total_us : ℕ) where
  -- The request names a resource and a container, has the chunk, the store is resolved, and WriteAsync of the
  -- chunk returns.
  pub record IsWritten (base64 : Base64Url) (guid : Bytes) (request : WriteRequest) (s : svc.State)
      : Type 0 where
    pub named : (request.resource_name ≢ []) × (request.container_name ≢ [])
    pub chunk : ProtoChunk
    pub given : request.chunk ≡ some chunk
    pub store : resolved ≡ true
    pub end : WriteEnd
    pub returned : (write_async svc base64 guid (from_proto chunk) s).0 ≡ ok end

  -- What there is to write: the request is complete and the store resolved.
  abbrev pub IsReady : WriteRequest → Type 0
  IsReady request =
      (request.resource_name ≢ [])
      × (request.container_name ≢ [])
      × (request.chunk ≢ none)
      × (resolved ≡ true)

  module _ (base64 : Base64Url) (guid : Bytes) (request : WriteRequest) (s : svc.State) where
    -- What the answer says of the request.
    abbrev Fits : Reply (Unit {0}) × svc.State → Type 0
    Fits r =
        ((r.0.finished ≡ ok_status ∷ []) ↔ IsWritten base64 guid request s)
        × ((r.0.response.success ≡ true) ↔ IsWritten base64 guid request s)
        × (IsReady request ⊎ (r.1 ≡ s))

    not_written :
        (r : Reply (Unit {0}) × svc.State)
        → r.0.finished ≢ ok_status ∷ []
        → r.0.response.success ≢ true
        → ¬ IsWritten base64 guid request s
        → IsReady request ⊎ (r.1 ≡ s)
        → Fits r
    not_written r unfinished failed impossible kept = (
      (λ h. absurd (unfinished h), λ w. absurd (impossible w)),
      (λ h. absurd (failed h), λ w. absurd (impossible w)),
      kept,
    )

    some_injective : {a b : ProtoChunk} → some a ≡ some b → a ≡ b
    some_injective e = cc

    refused : (text : Bytes) → ¬ IsWritten base64 guid request s → Fits (refuse text, s)
    refused text impossible = not_written (refuse text, s) (λ h. cc) (λ h. cc) impossible (inr refl)

    answered :
        (chunk : ProtoChunk) (r : Result WriteEnd × svc.State)
        → r ≡ write_async svc base64 guid (from_proto chunk) s
        → request.resource_name ≢ []
        → request.container_name ≢ []
        → request.chunk ≡ some chunk
        → resolved ≡ true
        → Fits (answer what (λ e. none) storage_us total_us r.0, r.1)
    answered chunk (ok end, t) e resource container given store =
        ((λ h. written, λ w. refl), (λ h. written, λ w. refl), inl ready)
      where
        written : IsWritten base64 guid request s
        written = record {
          named = (resource, container);
          chunk = chunk;
          given = given;
          store = store;
          end = end;
          returned = ap (λ (x : Result WriteEnd × svc.State). x.0) (sym e);
        }

        ready : IsReady request
        ready = (resource, container, λ h. ground (arith, h, given), store)
    answered chunk (throw x, t) e resource container given store =
        not_written (fail (what x) (what x) total_us, t) (λ h. cc) (λ h. cc) impossible
          (inl (resource, container, λ h. ground (arith, h, given), store))
      where
        impossible : ¬ IsWritten base64 guid request s
        impossible w = ground (
          arith,
          ap (λ (y : Result WriteEnd × svc.State). y.0) e,
          ap (λ (c : ProtoChunk). (write_async svc base64 guid (from_proto c) s).0) (same w),
          w.returned,
        )
          where
            same : (w : IsWritten base64 guid request s) → chunk ≡ w.chunk
            same w = some_injective (sym given ∙ w.given)

    by_chunk :
        (chunk : Option ProtoChunk)
        → request.chunk ≡ chunk
        → request.resource_name ≢ []
        → request.container_name ≢ []
        → Fits (write_chunk_reactor svc what resolved storage_us total_us base64 guid chunk s)
    by_chunk none given resource container = refused _ (λ w. ground (arith, w.given, given))
    by_chunk (some chunk) given resource container =
        if-cases Fits (not resolved)
          (λ unresolved.
            not_written (no_storage total_us, s) (λ h. cc) (λ h. cc)
              (λ w. ground (arith, w.store, unresolved)) (inr refl))
          (λ store.
            answered chunk (write_async svc base64 guid (from_proto chunk) s) refl resource
              container given (ground (arith, store)))

    -- A Write call finishes with OK exactly if its response reports success, and exactly if the request names a
    -- resource and a container and has a chunk, the store is resolved, and WriteAsync of the chunk returns.
    -- Either the request is complete and the store resolved, or the call leaves the container as it was.
    pub write_reactor_iff :
        let r = write_reactor svc what resolved storage_us total_us base64 guid request s in
        ((r.0.finished ≡ ok_status ∷ []) ↔ IsWritten base64 guid request s)
        × ((r.0.response.success ≡ true) ↔ IsWritten base64 guid request s)
        × (IsReady request ⊎ (r.1 ≡ s))
    unfolding write_reactor
    write_reactor_iff =
        if-cases Fits (empty request.resource_name)
          (λ e. refused _ (λ w. absurd (w.named.0 ((empty_iff request.resource_name).0 e))))
          (λ resource.
            if-cases Fits (empty request.container_name)
              (λ e. refused _ (λ w. absurd (w.named.1 ((empty_iff request.container_name).0 e))))
              (λ container.
                by_chunk request.chunk refl (not_empty request.resource_name resource)
                  (not_empty request.container_name container)))
      where
        not_empty : (xs : Bytes) → empty xs ≡ false → xs ≢ []
        not_empty xs h e = ground (arith, (empty_iff xs).1 e, h)
