-- ===== src/Store/Write/Published.antt =====
-- What the retry loop of WriteAsync has put into the metadata when it ends as an additional version.
pub mod Whole
use kv_store_v.Base.{
  ℕ, zero, suc, ◌≡◌, ◌≢◌, refl, ap, ◌∙◌, ◌⊎◌, inl, inr, Bool, true, false, List, [], ◌∷◌, ◌++◌,
  Option, none, some, Dict, insert, lookup, lookup-insert, equal, equal_self, equal_iff,
  invalid_argument, out_of_range, runtime_error, ltb, ◌==◌, if◌then◌else◌, arith, Bytes, codes,
  length, drop, Result, ok, throw, Exn, Status, storage_exception, if-cases, Bool-cases,
  Option-cases,
}
use kv_store_v.Types.{PromptChunk}
use kv_store_v.Blob.Name.{Base64Url, encode_tokens_to_blob_name}
use kv_store_v.Blob.Versions.{AdditionalVersion, serialize_additional_versions}
use kv_store_v.Blob.Service.{BlobService, Metadata, Properties}
use kv_store_v.Store.Write.{
  M, bind, pure, lift, same_version, lists_version, present_versions, to_dict, content,
  chunk_metadata, is_conflict, WriteEnd, first_version, identical, already_listed,
  additional_version, max_retries, max_versions, Draft, touch, evict, attempt, publish,
  append_version, after_attempt, retry_loop, is_precondition_failed, add_version, write_chunk,
  write_async, swallow,
}

-- The list ends with the version.
abbrev pub EndsWith : AdditionalVersion → List AdditionalVersion → Type 0
EndsWith v versions = (older : List AdditionalVersion) × (versions ≡ older ++ v ∷ [])

touch-kept :
    (k j text : Bytes) (m : Dict Bytes) → lookup j m ≡ some text → lookup j (touch k m) ≡ some text
unfolding touch
touch-kept k j text m h = elim (Option-cases (lookup k m)) [
  | inl absent ↦ ground (arith, absent, lookup-insert k j [] m, equal_iff k j, h)
  | inr (found, present) ↦ ground (arith, present, h)
]

module _ (svc : BlobService) where
  -- The last thing that the call does is a SetMetadata on the blob `name` that the service accepts, and the
  -- metadata lists the new version, as the newest one.
  pub record IsPublished (name : Bytes) (v : AdditionalVersion) (after : svc.State) : Type 0 where
    pub metadata : Metadata
    pub etag : Bytes
    pub before : svc.State
    pub accepted : svc.set_metadata name metadata etag before ≡ (ok tt, after)
    pub versions : List AdditionalVersion
    pub newest : EndsWith v versions
    pub listed :
        lookup (codes "additionalversions") metadata ≡ some (serialize_additional_versions versions)

  -- A round of the eviction that goes on has gone on with the rest.
  deleted :
      (v : AdditionalVersion) (versions kept : List AdditionalVersion) (s : svc.State)
      (r : Result (Unit {0}) × svc.State)
      → svc.delete v.location s ≡ r
      → ltb max_versions (length (v ∷ versions)) ≡ true
      → (evict svc (v ∷ versions) s).0 ≡ ok kept
      → (evict svc versions r.1).0 ≡ ok kept
  unfolding evict
  deleted v versions kept s (ok _, s') e long h = ground (arith, e, long, h)
  deleted v versions kept s (throw (storage_exception _), s') e long h = ground (arith, e, long, h)
  deleted v versions kept s (throw invalid_argument, s') e long h = ground (arith, e, long, h)
  deleted v versions kept s (throw out_of_range, s') e long h = ground (arith, e, long, h)
  deleted v versions kept s (throw (runtime_error _), s') e long h = ground (arith, e, long, h)

  evict-EndsWith :
      (v : AdditionalVersion) (older kept : List AdditionalVersion) (s : svc.State)
      → (evict svc (older ++ v ∷ []) s).0 ≡ ok kept
      → EndsWith v kept
  unfolding evict
  evict-EndsWith v [] kept s h = ([], ground (arith, h))
  evict-EndsWith v (x ∷ older) kept s h =
      elim (Bool-cases (ltb max_versions (length (x ∷ (older ++ v ∷ []))))) [
        | inl long ↦
            evict-EndsWith v older kept (svc.delete x.location s).1
              (deleted x (older ++ v ∷ []) kept s (svc.delete x.location s) refl long h)
        | inr short ↦ (x ∷ older, ground (arith, short, h))
      ]

  publish-IsPublished :
      (name : Bytes) (v : AdditionalVersion) (d : Draft) (kept : Result (List AdditionalVersion))
      (s : svc.State)
      → ((versions : List AdditionalVersion) → kept ≡ ok versions → EndsWith v versions)
      → (publish svc name d kept s).0 ≡ ok tt
      → IsPublished name v (publish svc name d kept s).2
  publish-IsPublished name v d (throw e) s ends h = cc
  publish-IsPublished name v d (ok versions) s ends h =
      let text = serialize_additional_versions versions in
      let listing = insert (codes "additionalversions") text d.metadata in
      record {
        metadata = touch (codes "parenthash") (touch (codes "hash") listing);
        etag = d.current_etag;
        before = s;
        accepted = ap (λ (a : Result (Unit {0})). (a, (publish svc name d (ok versions) s).2)) h;
        versions = versions;
        newest = ends versions refl;
        listed = touch-kept (codes "parenthash") _ text _ (
            touch-kept (codes "hash") _ text listing (
              lookup-insert (codes "additionalversions") _ text d.metadata
              ∙ rw (equal_self (codes "additionalversions")) refl));
      }

  append_version-IsPublished :
      (name : Bytes) (v : AdditionalVersion) (d : Draft) (fetched : Result Draft) (s : svc.State)
      → (append_version svc name v d fetched s).0 ≡ ok tt
      → IsPublished name v (append_version svc name v d fetched s).2
  append_version-IsPublished name v d (throw e) s h = cc
  append_version-IsPublished name v d (ok current) s h =
      let (kept, s') = evict svc (current.existing_versions ++ v ∷ []) s in
      publish-IsPublished name v current kept s'
        (λ versions e. evict-EndsWith v current.existing_versions versions s e) h

  attempt-IsPublished :
      (first : Bool) (name : Bytes) (v : AdditionalVersion) (d : Draft) (s : svc.State)
      → (attempt svc first name v d s).0 ≡ ok tt
      → IsPublished name v (attempt svc first name v d s).2
  unfolding attempt
  attempt-IsPublished first name v d s h = append_version-IsPublished name v d _ _ h

  after_attempt-IsPublished :
      (name : Bytes) (v : AdditionalVersion) (answer : Result (Unit {0})) (last : Bool)
      (s : svc.State) (again : Result WriteEnd × svc.State) (end : WriteEnd)
      → (answer ≡ ok tt → IsPublished name v s)
      → (last ≡ false → again.0 ≡ ok end → IsPublished name v again.1)
      → (after_attempt svc answer last s again).0 ≡ ok end
      → IsPublished name v (after_attempt svc answer last s again).1
  after_attempt-IsPublished name v (ok tt) last s again end now next h = now refl
  after_attempt-IsPublished name v (throw e) true s again end now next h =
      absurd (ground (arith, h))
  after_attempt-IsPublished name v (throw e) false s again end now next h =
      elim (Bool-cases (is_precondition_failed e)) [
        | inl p ↦ rw p (next refl (ground (arith, p, h)))
        | inr p ↦ absurd (ground (arith, p, h))
      ]

  pub retry_loop-IsPublished :
      (left : ℕ) (first : Bool) (name : Bytes) (v : AdditionalVersion) (d : Draft) (s : svc.State)
      (end : WriteEnd)
      → (retry_loop svc (suc left) first name v d s).0 ≡ ok end
      → IsPublished name v (retry_loop svc (suc left) first name v d s).1
  unfolding retry_loop
  retry_loop-IsPublished zero first name v d s end h =
      after_attempt-IsPublished name v _ true _ _ end (attempt-IsPublished first name v d s)
        (λ e. cc) h
  retry_loop-IsPublished (suc left) first name v d s end h =
      let (answer, d', s') = attempt svc first name v d s in
      after_attempt-IsPublished name v answer (suc left == 0) s'
        (retry_loop svc (suc left) false name v d' s') end (attempt-IsPublished first name v d s)
        (λ e. retry_loop-IsPublished left false name v d' s' end) h
