-- ===== src/Store/Write/Retry.antt =====
-- The eviction of old versions in the retry loop of WriteAsync.
use kv_store_v.Base.{
  ℕ, suc, ◌-◌, ◌≡◌, refl, ap, ◌∙◌, ◌⊎◌, inl, inr, true, false, List, [], ◌∷◌, ltb, if◌then◌else◌,
  arith, Bytes, length, drop, Result, ok, throw, Status, storage_exception, Bool-cases,
}
use kv_store_v.Blob.Versions.{AdditionalVersion}
use kv_store_v.Blob.Service.{BlobService}
use kv_store_v.Store.Write.{max_versions, evict}

-- A deletion succeeds or fails with a StorageException.
abbrev pub IsDeletion : Result (Unit {0}) → Type 0
IsDeletion r = (r ≡ ok tt) ⊎ ((status : Status) × (r ≡ throw (storage_exception status)))

module _ (svc : BlobService) where
  -- If deletions answer with success or a StorageException, the eviction loop returns and keeps exactly the
  -- newest 60 versions, in their order, whether the deletions succeeded or not.
  pub evict-newest :
      ((n : Bytes) (s : svc.State) → IsDeletion (svc.delete n s).0)
      → (versions : List AdditionalVersion) (s : svc.State)
      → (evict svc versions s).0 ≡ ok (drop (length versions - max_versions) versions)
  unfolding evict
  evict-newest deletes [] s = refl
  evict-newest deletes (v ∷ vs) s = elim (deletes v.location s) [
    | inl e ↦ ground (arith, e, dropped, evict-newest deletes vs (svc.delete v.location s).1)
    | inr (status, e) ↦
        ground (arith, e, dropped, evict-newest deletes vs (svc.delete v.location s).1)
  ]
    where
      dropped : drop (length (v ∷ vs) - max_versions) (v ∷ vs) ≡ (
          if ltb max_versions (length (v ∷ vs)) then drop (length vs - max_versions) vs else v ∷ vs)
      dropped = elim (Bool-cases (ltb max_versions (length (v ∷ vs)))) [
        | inl long ↦ ap (λ (n : ℕ). drop n (v ∷ vs)) (exceeds long) ∙ rw long
        | inr short ↦ ap (λ (n : ℕ). drop n (v ∷ vs)) (fits short) ∙ rw short
      ]
        where
          exceeds :
              ltb max_versions (length (v ∷ vs)) ≡ true
              → length (v ∷ vs) - max_versions ≡ suc (length vs - max_versions)
          exceeds long = ground (arith, long)

          fits : ltb max_versions (length (v ∷ vs)) ≡ false → length (v ∷ vs) - max_versions ≡ 0
          fits short = ground (arith, short)
