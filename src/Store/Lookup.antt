-- ===== src/Store/Lookup.antt =====
-- AzureStorageKVStoreLibV2::Lookup. The GetProperties calls run in parallel, each at its own moment:
-- `replies` gives what the service answered for each blob name and block number, so that no order of
-- these calls and of other clients' writes is assumed. Log lines are left out.
pub mod Choice
pub mod Chain
pub mod Head
use kv_store_v.Base.{
  ℕ, zero, suc, ◌+◌, ◌*◌, ◌/◌, not, ◌&&◌, ◌||◌, List, [], ◌∷◌, ◌++◌, Option, none, some, ◌==◌, ltb,
  if◌then◌else◌, Bytes, codes, empty, length, take, drop, Result, ok, throw, storage_exception,
  ◌>>=◌, stoull, get_elem?,
}
use kv_store_v.Types.{BlockLocation, LookupResult, no_blocks}
use kv_store_v.Blob.Name.{Base64Url, encode_tokens_to_blob_name}
use kv_store_v.Blob.Versions.{AdditionalVersion, parse_additional_versions}
use kv_store_v.Blob.Service.{BlobService, Properties, Metadata, metadata_find}

abbrev pub block_size : ℕ
block_size = 128

-- struct BlockInfo
pub record BlockInfo : Type 0 where
  pub blob_name : Bytes
  pub expected_hash : ℕ

-- What a GetProperties task returns for a blob that is there.
pub record Probe : Type 0 where
  pub stored_hash : ℕ
  pub parent_hash : ℕ
  pub multi_version : Bytes
  pub additional_versions : Bytes

-- The rounds that prepare the blocks: `count` blocks from index `i` on.
unfoldable pub prepare_blocks : Base64Url → List ℕ → List ℕ → ℕ → ℕ → List BlockInfo
prepare_blocks base64 tokens hashes zero i = []
prepare_blocks base64 tokens hashes (suc count) i =
    (record {
      blob_name =
          encode_tokens_to_blob_name base64 (take block_size (drop (i * block_size) tokens));
      expected_hash = elim (get_elem? hashes i) [ none ↦ 0 | some h ↦ h ];
    })
    ∷ prepare_blocks base64 tokens hashes count (i + 1)

unfoldable pub hash_or_zero : Option Bytes → Result ℕ
hash_or_zero none = ok 0
hash_or_zero (some text) = stoull text

abbrev pub text_or_empty : Option Bytes → Bytes
text_or_empty none = []
text_or_empty (some text) = text

module _ (svc : BlobService) where
  unfoldable pub read_metadata : Metadata → Result Probe
  read_metadata m = do
    stored_hash ← hash_or_zero (metadata_find svc (codes "hash") m)
    parent_hash ← hash_or_zero (metadata_find svc (codes "parenthash") m)
    ok (record {
      stored_hash = stored_hash;
      parent_hash = parent_hash;
      multi_version = text_or_empty (metadata_find svc (codes "multiversion") m);
      additional_versions = text_or_empty (metadata_find svc (codes "additionalversions") m);
    })

  -- The task: a StorageException means that the block is not found; any other exception is rethrown
  -- where the future is read.
  unfoldable pub probe_block : Result Properties → Result (Option Probe)
  probe_block (ok properties) = do probe ← read_metadata properties.metadata; ok (some probe)
  probe_block (throw (storage_exception status)) = ok none
  probe_block (throw e) = throw e

-- The search through the additional versions.
unfoldable pub find_version : ℕ → List AdditionalVersion → Option BlockLocation
find_version parent [] = none
find_version parent (v ∷ vs) =
    if v.parent_hash == parent
    then some (record { hash = v.hash; location = v.location })
    else find_version parent vs

-- The version of a block that continues the chain; `none` breaks it.
unfoldable pub choose_version : ℕ → ℕ → Bytes → Probe → Result (Option BlockLocation)
choose_version block_num expected_parent blob_name probe =
    let default : BlockLocation = record { hash = probe.stored_hash; location = blob_name } in
    if not (empty probe.additional_versions)
    then (if block_num == 0 || probe.parent_hash == expected_parent then ok (some default) else (do
      versions ← parse_additional_versions probe.additional_versions
      ok (find_version expected_parent versions)))
    else (if ltb 0 block_num && not (probe.parent_hash == expected_parent)
        then ok none
        else ok (some default))

-- A block that is not found breaks the chain too.
abbrev pub choose_found : ℕ → ℕ → Bytes → Option Probe → Result (Option BlockLocation)
choose_found block_num expected_parent blob_name none = ok none
choose_found block_num expected_parent blob_name (some probe) =
    choose_version block_num expected_parent blob_name probe

abbrev pub add_location : LookupResult → BlockLocation → LookupResult
add_location r l = record {
  cached_blocks = r.cached_blocks + 1;
  last_hash = l.hash;
  locations = r.locations ++ l ∷ [];
}

module _ (svc : BlobService) (replies : ℕ → Bytes → Result Properties) where
  -- One round up to the `break`s.
  unfoldable pub next_location : ℕ → ℕ → BlockInfo → Result (Option BlockLocation)
  next_location block_num expected_parent block = do
    found ← probe_block svc (replies block_num block.blob_name)
    choose_found block_num expected_parent block.blob_name found

  -- The loop that follows the chain.
  unfoldable pub follow_chain : List BlockInfo → ℕ → ℕ → LookupResult → Result LookupResult
  follow_chain [] block_num expected_parent result = ok result
  follow_chain (block ∷ blocks) block_num expected_parent result =
      next_location block_num expected_parent block >>= λ next. elim next [
        | none ↦ ok result
        | some l ↦ follow_chain blocks (block_num + 1) l.hash (add_location result l)
      ]

  unfoldable pub lookup_tokens : Base64Url → List ℕ → List ℕ → Result LookupResult
  lookup_tokens base64 tokens precomputed_hashes =
      let num_full_blocks = length tokens / block_size in
      if num_full_blocks == 0
      then ok no_blocks
      else follow_chain (prepare_blocks base64 tokens precomputed_hashes num_full_blocks 0) 0 0
          no_blocks
