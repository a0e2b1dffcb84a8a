-- ===== src/Service/Unary/Outcome.antt =====
-- A Lookup or Read call finishes once, and its status agrees with its response.
use kv_store_v.Base.{
  ℕ, ◌≡◌, refl, Bool, true, false, not, [], ◌∷◌, Option, none, if◌then◌else◌, if-cases, Bytes,
  empty, Result, ok, throw, Exn,
}
use kv_store_v.Blob.Name.{Base64Url}
use kv_store_v.Blob.Service.{BlobService, Properties}
use kv_store_v.Service.Messages.{GrpcStatus, ok_status, ReadRequest}
use kv_store_v.Service.Unary.{
  LookupRequest, Reply, refuse, no_storage, answer, found_chunk, lookup_reactor, read_reactor,
}

abbrev is_ok : GrpcStatus → Bool
is_ok ok_status = true
is_ok _ = false

-- Finish was called once, with OK exactly if the response reports success; without success no body.
record IsAnswered {Body : Type 0} (reply : Reply Body) : Type 0 where
  pub status : GrpcStatus
  pub once : reply.finished ≡ status ∷ []
  pub agrees : reply.response.success ≡ is_ok status
  pub bodiless : reply.response.body ≡ (if is_ok status then reply.response.body else none)

module _ {Body : Type 0} where
  refuse-IsAnswered : (text : Bytes) → IsAnswered (refuse {Body = Body} text)
  refuse-IsAnswered text = record { status = _; once = refl; agrees = refl; bodiless = refl }

  no_storage-IsAnswered : (total_us : ℕ) → IsAnswered (no_storage {Body = Body} total_us)
  no_storage-IsAnswered total_us = record {
    status = _;
    once = refl;
    agrees = refl;
    bodiless = refl;
  }

  answer-IsAnswered :
      {A : Type 0} (what : Exn → Bytes) (body : A → Option Body) (storage_us total_us : ℕ)
      (r : Result A)
      → IsAnswered (answer what body storage_us total_us r)
  answer-IsAnswered what body storage_us total_us (ok a) = record {
    status = _;
    once = refl;
    agrees = refl;
    bodiless = refl;
  }
  answer-IsAnswered what body storage_us total_us (throw e) = record {
    status = _;
    once = refl;
    agrees = refl;
    bodiless = refl;
  }

module _ (svc : BlobService) (what : Exn → Bytes) (resolved : Bool) (storage_us total_us : ℕ) where
  -- Whatever the request and the storage do, a Lookup call finishes exactly once, with OK exactly if the
  -- response reports success, and without success the response carries no result.
  lookup_reactor-IsAnswered :
      (base64 : Base64Url) (replies : ℕ → Bytes → Result Properties) (request : LookupRequest)
      → IsAnswered (lookup_reactor svc what resolved storage_us total_us base64 replies request)
  unfolding lookup_reactor
  lookup_reactor-IsAnswered base64 replies request =
      if-cases IsAnswered (empty request.resource_name) (λ _. refuse-IsAnswered _)
        (λ _.
          if-cases IsAnswered (empty request.container_name) (λ _. refuse-IsAnswered _)
            (λ _.
              if-cases IsAnswered (empty request.tokens) (λ _. refuse-IsAnswered _)
                (λ _.
                  if-cases IsAnswered (not resolved) (λ _. no_storage-IsAnswered total_us)
                    (λ _. answer-IsAnswered what _ storage_us total_us _))))

  abbrev FirstAnswered : {Body : Type 0} → Reply Body × svc.State → Type 0
  FirstAnswered r = IsAnswered r.0

  -- A Read call finishes exactly once, with OK exactly if the response reports success, and without success the
  -- response carries no chunk.
  read_reactor-IsAnswered :
      (request : ReadRequest) (s : svc.State)
      → IsAnswered (read_reactor svc what resolved storage_us total_us request s).0
  unfolding read_reactor
  read_reactor-IsAnswered request s =
      if-cases FirstAnswered (empty request.resource_name) (λ _. refuse-IsAnswered _)
        (λ _.
          if-cases FirstAnswered (empty request.container_name) (λ _. refuse-IsAnswered _)
            (λ _.
              if-cases FirstAnswered (empty request.location) (λ _. refuse-IsAnswered _)
                (λ _.
                  if-cases FirstAnswered (not resolved) (λ _. no_storage-IsAnswered total_us)
                    (λ _. answer-IsAnswered what found_chunk storage_us total_us _))))
