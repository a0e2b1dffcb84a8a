-- ===== src/Store/Write.antt =====
-- AzureStorageKVStoreLibV2::WriteAsync: the first version of a block goes to the blob that its tokens
-- name, later versions to a blob with a random name, listed in the first one's metadata.
-- The random name is an argument. Log lines are left out but for what they do to the metadata.
pub mod First
pub mod Retry
pub mod Published
pub mod Listed
pub mod Second
pub mod Prompt
mod Tests
use kv_store_v.Base.{
  ℕ, zero, suc, Bool, true, false, not, ◌&&◌, List, [], ◌∷◌, ◌++◌, Option, none, some, ◌==◌, ltb,
  if◌then◌else◌, Bytes, codes, empty, equal, length, take, Dict, insert, lookup, Result, ok, throw,
  Exn, storage_exception, conflict, precondition_failed, invalid_argument, out_of_range,
  runtime_error, to_string,
}
use kv_store_v.Types.{PromptChunk}
use kv_store_v.Blob.Name.{Base64Url, encode_tokens_to_blob_name}
use kv_store_v.Blob.Versions.{
  AdditionalVersion, parse_additional_versions, serialize_additional_versions,
}
use kv_store_v.Blob.Service.{BlobService, Metadata}

abbrev pub max_retries : ℕ
max_retries = 5

abbrev pub max_versions : ℕ
max_versions = 60

-- Which `return` the task ends by. `swallowed` is the handler that ends in `assert(false)`: with NDEBUG
-- the future is ready and nothing is reported, without it the process aborts.
pub data WriteEnd : Type 0 where
  first_version identical already_listed additional_version swallowed : WriteEnd

-- for (const auto& [key, value] : ...) metadata[key] = value;
unfoldable pub to_dict : Metadata → Dict Bytes
unfolding insert
to_dict [] = []
to_dict ((k, v) ∷ m) = insert k v (to_dict m)

-- metadata[key] as it stands in the log lines: a missing key is inserted with the empty text.
unfoldable pub touch : Bytes → Dict Bytes → Dict Bytes
touch key m = elim (lookup key m) [ none ↦ insert key [] m | some text ↦ m ]

abbrev pub has_text : Option Bytes → Bytes → Bool
has_text none text = false
has_text (some t) text = equal t text

-- The metadata that a chunk is uploaded with.
abbrev pub chunk_metadata : PromptChunk → Bytes → Metadata
chunk_metadata chunk location =
    (codes "hash", to_string chunk.hash)
    ∷ (codes "parenthash", to_string chunk.parent_hash)
    ∷ (codes "location", location)
    ∷ []

unfoldable pub same_version : PromptChunk → Dict Bytes → Bool
same_version chunk metadata =
    has_text (lookup (codes "hash") metadata) (to_string chunk.hash)
    && has_text (lookup (codes "parenthash") metadata) (to_string chunk.parent_hash)

unfoldable pub lists_version : PromptChunk → List AdditionalVersion → Bool
lists_version chunk [] = false
lists_version chunk (v ∷ vs) =
    if v.hash == chunk.hash && v.parent_hash == chunk.parent_hash
    then true
    else lists_version chunk vs

-- The versions of a blob that already has some; an absent or empty list leaves `otherwise`.
unfoldable pub versions_or : List AdditionalVersion → Option Bytes → Result (List AdditionalVersion)
versions_or otherwise none = ok otherwise
versions_or otherwise (some text) = parse_additional_versions text

-- The same at the first reading.
unfoldable pub present_versions : Option Bytes → Result (List AdditionalVersion)
present_versions none = ok []
present_versions (some text) = if empty text then ok [] else parse_additional_versions text

-- buffer.data() and bufferSize, the stream that is uploaded. The source reads past the buffer where bufferSize is
-- larger; what stands there is not modelled, and the stream then ends with the buffer.
abbrev pub content : PromptChunk → Bytes
content chunk = take chunk.buffer_size chunk.buffer

abbrev pub is_precondition_failed : Exn → Bool
is_precondition_failed (storage_exception precondition_failed) = true
is_precondition_failed _ = false

abbrev pub is_conflict : Exn → Bool
is_conflict (storage_exception conflict) = true
is_conflict _ = false

-- catch (const StorageException&) { ... assert(false); }
unfoldable pub swallow : Result WriteEnd → Result WriteEnd
swallow (throw (storage_exception status)) = ok swallowed
swallow r = r

-- The variables that live across the rounds of the retry loop.
pub record Draft : Type 0 where
  pub current_etag : Bytes
  pub metadata : Dict Bytes
  pub existing_versions : List AdditionalVersion

module _ (svc : BlobService) where
  abbrev pub M : Type 0 → Type 0
  M A = svc.State → Result A × svc.State

  abbrev pub pure : {A : Type 0} → A → M A
  pure a s = (ok a, s)

  abbrev pub lift : {A : Type 0} → Result A → M A
  lift r s = (r, s)

  abbrev pub bind : {A B : Type 0} → M A → (A → M B) → M B
  bind m f s = let (r, s') = m s in elim r [ ok a ↦ f a s' | throw e ↦ (throw e, s') ]

  -- The eviction loop: the oldest version's blob is deleted, and a StorageException of the deletion
  -- is only logged.
  unfoldable pub evict : List AdditionalVersion → M (List AdditionalVersion)
  evict [] s = (ok [], s)
  evict (oldest ∷ versions) s =
      if ltb max_versions (length (oldest ∷ versions))
      then (let (r, s') = svc.delete oldest.location s in
          elim r [
            | ok _ ↦ evict versions s'
            | throw e ↦ elim e [
              | storage_exception status ↦ evict versions s'
              | invalid_argument ↦ (throw invalid_argument, s')
              | out_of_range ↦ (throw out_of_range, s')
              | runtime_error text ↦ (throw (runtime_error text), s')
            ]
          ])
      else (ok (oldest ∷ versions), s)

  -- The re-fetch at the head of every round but the first. An exception leaves the variables as they
  -- were: GetProperties throws before they are written, and a bad version list ends the loop.
  unfoldable pub refetch : Bytes → Draft → M Draft
  refetch blob_name draft = bind (svc.get_properties blob_name) λ properties.
      let metadata = to_dict properties.metadata in
      bind
        (lift (versions_or draft.existing_versions (lookup (codes "additionalversions") metadata)))
        λ versions. pure (record {
          current_etag = properties.etag;
          metadata = metadata;
          existing_versions = versions;
        })

  -- From the serialization on: the new list goes into the metadata, on the condition of the ETag.
  abbrev pub publish :
      Bytes
      → Draft
      → Result (List AdditionalVersion)
      → svc.State
      → Result (Unit {0}) × Draft × svc.State
  publish blob_name current (throw e) s = (throw e, current, s)
  publish blob_name current (ok versions) s =
      let updated = record current {
        existing_versions = versions;
        metadata = touch (codes "parenthash") (
            touch (codes "hash") (
              insert (codes "additionalversions") (serialize_additional_versions versions)
                current.metadata));
      } in
      let (answer, s') = svc.set_metadata blob_name updated.metadata updated.current_etag s in
      (answer, updated, s')

  -- From the new version on, behind the re-fetch.
  abbrev pub append_version :
      Bytes
      → AdditionalVersion
      → Draft
      → Result Draft
      → svc.State
      → Result (Unit {0}) × Draft × svc.State
  append_version blob_name new_version draft (throw e) s = (throw e, draft, s)
  append_version blob_name new_version draft (ok current) s =
      let (kept, s') = evict (current.existing_versions ++ new_version ∷ []) s in
      publish blob_name current kept s'

  -- The body of the `try`: the answer, and what it leaves in the variables.
  unfoldable pub attempt :
      Bool → Bytes → AdditionalVersion → Draft → svc.State → Result (Unit {0}) × Draft × svc.State
  attempt first blob_name new_version draft s =
      let (fetched, s') = (if first then pure draft else refetch blob_name draft) s in
      append_version blob_name new_version draft fetched s'

  -- The handler: only a failed precondition in a round that is not the last leads to another round, `again`.
  abbrev pub after_attempt :
      Result (Unit {0})
      → Bool
      → svc.State
      → Result WriteEnd × svc.State
      → Result WriteEnd × svc.State
  after_attempt (ok _) last s again = (ok additional_version, s)
  after_attempt (throw e) last s again =
      if is_precondition_failed e && not last then again else (throw e, s)

  -- The retry loop with `left` rounds to go.
  unfoldable pub retry_loop : ℕ → Bool → Bytes → AdditionalVersion → Draft → M WriteEnd
  retry_loop zero first blob_name new_version draft s = (ok additional_version, s)
  retry_loop (suc left) first blob_name new_version draft s =
      let (answer, draft', s') = attempt first blob_name new_version draft s in
      after_attempt answer (left == 0) s' (retry_loop left false blob_name new_version draft' s')

  -- From the conflict on: the blob exists.
  unfoldable pub add_version : Bytes → Bytes → PromptChunk → M WriteEnd
  add_version blob_name guid chunk = bind (svc.get_properties blob_name) λ properties.
      let metadata = to_dict properties.metadata in
      if same_version chunk metadata
      then pure identical
      else bind (lift (present_versions (lookup (codes "additionalversions") metadata))) λ versions.
        if lists_version chunk versions
        then pure already_listed
        else bind (svc.upload guid (content chunk) (chunk_metadata chunk guid) false) λ _.
          retry_loop max_retries true blob_name
            (record { hash = chunk.hash; parent_hash = chunk.parent_hash; location = guid })
            (record {
              current_etag = properties.etag;
              metadata = metadata;
              existing_versions = versions;
            })

  -- The first upload, on the condition that the blob is not there.
  unfoldable pub write_chunk : Bytes → Bytes → PromptChunk → M WriteEnd
  write_chunk blob_name guid chunk s =
      let (uploaded, s') =
        svc.upload blob_name (content chunk) (chunk_metadata chunk blob_name) true s in
      elim uploaded [
        | ok _ ↦ (ok first_version, s')
        | throw e ↦ elim (is_conflict e) [
          | true ↦ add_version blob_name guid chunk s'
          | false ↦ (throw e, s')
        ]
      ]

  -- The task, with its handler for StorageException.
  unfoldable pub write_async : Base64Url → Bytes → PromptChunk → M WriteEnd
  write_async base64 guid chunk s =
      let (end, s') = write_chunk (encode_tokens_to_blob_name base64 chunk.tokens) guid chunk s in
      (swallow end, s')
