-- ===== src/Blob/Memory.antt =====
-- A container kept in memory: an instance of the service, for the examples.
use kv_store_v.Base.{
  ℕ, ◌+◌, ◌≡◌, refl, Bool, Option, none, some, Bytes, equal, map, ◌&&◌, leb, arith, equal_self,
  lookup-insert, if◌then◌else◌, Dict, lookup, insert, remove, Result, ok, throw, conflict,
  precondition_failed, other_status, storage_exception, to_string, Option-cases, inl, inr,
}
use kv_store_v.Blob.Name.{Base64Url}
use kv_store_v.Blob.Service.{BlobService, Properties, Download, Metadata}
use kv_store_v.Blob.Contract.{Stored, BlobContract, properties_of, download_of}

pub record Blob : Type 0 where
  pub body : Bytes
  pub metadata : Metadata
  pub writes : ℕ

abbrev pub Container : Type 0
Container = Dict Blob

abbrev pub missing {ℓ} : {A : Type ℓ} → Result A
missing = throw (storage_exception (other_status 404))

abbrev pub stored : Blob → Stored
stored b = record { body = b.body; metadata = b.metadata; etag = to_string b.writes }

abbrev pub lower : ℕ → ℕ
lower c = if leb b'A' c && leb c b'Z' then c + 32 else c

abbrev pub next_write : Option Blob → ℕ
next_write none = 0
next_write (some b) = b.writes + 1

abbrev pub get_properties : Bytes → Container → Result Properties × Container
get_properties n s = elim (lookup n s) [
  | none ↦ (missing, s)
  | some b ↦ (ok (properties_of (stored b)), s)
]

abbrev pub download : Bytes → Container → Result Download × Container
download n s = elim (lookup n s) [ none ↦ (missing, s) | some b ↦ (ok (download_of (stored b)), s) ]

abbrev pub put : Bytes → Bytes → Metadata → Container → Container
put n body m s = insert n (record { body = body; metadata = m; writes = next_write (lookup n s) }) s

abbrev pub upload : Bytes → Bytes → Metadata → Bool → Container → Result (Unit {0}) × Container
upload n body m only_new s = elim (lookup n s) [
  | none ↦ (ok tt, put n body m s)
  | some b ↦ if only_new then (throw (storage_exception conflict), s) else (ok tt, put n body m s)
]

abbrev pub set_metadata : Bytes → Metadata → Bytes → Container → Result (Unit {0}) × Container
set_metadata n m etag s = elim (lookup n s) [
  | none ↦ (missing, s)
  | some b ↦
      if equal etag (to_string b.writes)
      then (ok tt, put n b.body m s)
      else (throw (storage_exception precondition_failed), s)
]

abbrev pub delete : Bytes → Container → Result (Unit {0}) × Container
delete n s = elim (lookup n s) [ none ↦ (missing, s) | some b ↦ (ok tt, remove n s) ]

abbrev pub memory : BlobService
memory = record {
  State = Container;
  get_properties = get_properties;
  download = download;
  upload = upload;
  set_metadata = set_metadata;
  delete = delete;
  same_key = λ a b. equal (map lower a) (map lower b);
}

-- The bytes themselves serve as their text.
abbrev pub plain : Base64Url
plain = record { encode = λ b. b; decode = λ b. b; decode-encode = λ b h. refl }

abbrev pub view : Option Blob → Option Stored
view none = none
view (some b) = some (stored b)

pub blob-upload_lem :
    (n body : Bytes) (m : Metadata) (only_new : Bool) (s : Container) (j : Bytes)
    → view (lookup n s) ≡ none
    → view (lookup j (upload n body m only_new s).1) ≡ (
        if equal n j
        then some (record { body = body; metadata = m; etag = to_string (next_write (lookup n s)) })
        else view (lookup j s))
blob-upload_lem n body m c s j h = ground (
  arith,
  lookup-insert n j (record { body = body; metadata = m; writes = next_write (lookup n s) }) s,
)

pub set_metadata_lem :
    (n : Bytes) (m : Metadata) (s : Container) (b : Stored)
    → view (lookup n s) ≡ some b
    → (set_metadata n m b.etag s).0 ≡ ok tt
set_metadata_lem n m s b h = elim (Option-cases (lookup n s)) [
  | inl e ↦ cc
  | inr (found, e) ↦ ground (arith, equal_self (to_string found.writes))
]

pub blob-set_metadata_lem :
    (n : Bytes) (m : Metadata) (s : Container) (b : Stored) (j : Bytes)
    → view (lookup n s) ≡ some b
    → view (lookup j (set_metadata n m b.etag s).1) ≡ (
        if equal n j
        then some
            (record { body = b.body; metadata = m; etag = to_string (next_write (lookup n s)) })
        else view (lookup j s))
blob-set_metadata_lem n m s b j h = elim (Option-cases (lookup n s)) [
  | inl e ↦ cc
  | inr (found, e) ↦ ground (
    arith,
    equal_self (to_string found.writes),
    lookup-insert n j (record { body = found.body; metadata = m; writes = found.writes + 1 }) s,
  )
]

unfoldable pub memory-contract : BlobContract memory
unfolding equal
memory-contract = record {
  blob = λ n s. view (lookup n s);
  not_found = other_status 404;
  new_etag = λ n s. to_string (next_write (lookup n s));
  properties_found = λ n s b h. ground arith;
  download_found = λ n s b h. ground arith;
  upload_stores = λ n body m c s h. ground arith;
  blob-upload = λ n body m c s j h. blob-upload_lem n body m c s j h;
  upload_conflict = λ n body m s b h. ground arith;
  set_metadata_stores = λ n m s b h. set_metadata_lem n m s b h;
  blob-set_metadata = λ n m s b j h. blob-set_metadata_lem n m s b j h;
  same_key_self = λ k. equal_self (map lower k);
  same_key_parent = refl;
  hash_apart = (refl, refl, refl, refl, refl);
  parent_apart = (refl, refl, refl, refl);
  location_apart = (refl, refl, refl);
  location_before = (refl, refl);
  additional_apart = refl;
}
