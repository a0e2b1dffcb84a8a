-- ===== src/Store/Write/Published/Whole.antt =====
-- What a WriteAsync that ends as an additional version has put into the metadata.
use kv_store_v.Base.{
  ◌≡◌, true, false, List, lookup, invalid_argument, out_of_range, runtime_error, if◌then◌else◌,
  Bytes, codes, Result, ok, throw, storage_exception, if-cases,
}
use kv_store_v.Types.{PromptChunk}
use kv_store_v.Blob.Name.{Base64Url, encode_tokens_to_blob_name}
use kv_store_v.Blob.Versions.{AdditionalVersion}
use kv_store_v.Blob.Service.{BlobService, Properties}
use kv_store_v.Store.Write.{
  M, bind, pure, lift, same_version, lists_version, present_versions, to_dict, content,
  chunk_metadata, is_conflict, WriteEnd, first_version, identical, already_listed,
  additional_version, max_retries, retry_loop, add_version, write_chunk, write_async, swallow,
}
use kv_store_v.Store.Write.Published.{IsPublished, retry_loop-IsPublished}

module _ (svc : BlobService) where
  module _ (name : Bytes) (v : AdditionalVersion) where
    -- If the outcome is an additional version, it is published.
    abbrev Good : Result WriteEnd × svc.State → Type 0
    Good r = r.0 ≡ ok additional_version → IsPublished svc name v r.1

    bind-Good :
        {A : Type 0} (m : M svc A) (f : A → M svc WriteEnd) (s : svc.State)
        → ((a : A) (t : svc.State) → Good (f a t))
        → Good (bind svc m f s)
    bind-Good {A} m f s good = by (m s)
      where
        by :
            (r : Result A × svc.State)
            → Good (elim r.0 as (λ x. Result WriteEnd × svc.State) [
              | ok a ↦ f a r.1
              | throw e ↦ (throw e, r.1)
            ])
        by (ok a, t) = good a t
        by (throw e, t) = λ h. cc

  abbrev version : Bytes → PromptChunk → AdditionalVersion
  version guid chunk = record {
    hash = chunk.hash;
    parent_hash = chunk.parent_hash;
    location = guid;
  }

  module _ (name guid : Bytes) (chunk : PromptChunk) (properties : Properties) where
    -- The rest of add_version from the second upload on.
    abbrev upload_version : List AdditionalVersion → M svc WriteEnd
    upload_version versions =
        bind svc (svc.upload guid (content chunk) (chunk_metadata chunk guid) false) λ _.
          retry_loop svc max_retries true name (version guid chunk) (record {
            current_etag = properties.etag;
            metadata = to_dict properties.metadata;
            existing_versions = versions;
          })

    upload_version-IsPublished :
        (versions : List AdditionalVersion) (t : svc.State)
        → Good name (version guid chunk) (upload_version versions t)
    upload_version-IsPublished versions t =
        bind-Good name (version guid chunk)
          (svc.upload guid (content chunk) (chunk_metadata chunk guid) false) _ t
          λ _ t'.
            retry_loop-IsPublished svc 4 true name (version guid chunk)
              (record {
                current_etag = properties.etag;
                metadata = to_dict properties.metadata;
                existing_versions = versions;
              })
              t' additional_version

    -- From the reading of the list on.
    abbrev among_versions : M svc WriteEnd
    among_versions =
        bind svc
          (lift svc
            (present_versions (lookup (codes "additionalversions") (to_dict properties.metadata))))
          λ versions.
            if lists_version chunk versions
            then pure svc already_listed
            else upload_version versions

    among_versions-IsPublished : (t : svc.State) → Good name (version guid chunk) (among_versions t)
    among_versions-IsPublished t =
        bind-Good name (version guid chunk)
          (lift svc
            (present_versions (lookup (codes "additionalversions") (to_dict properties.metadata))))
          _ t
          λ versions t'.
            if-cases (λ (m : M svc WriteEnd). Good name (version guid chunk) (m t'))
              (lists_version chunk versions) {x = pure svc already_listed}
              {y = upload_version versions} (λ _ h. cc)
              (λ _. upload_version-IsPublished versions t')

  add_version-IsPublished :
      (name guid : Bytes) (chunk : PromptChunk) (s : svc.State)
      → Good name (version guid chunk) (add_version svc name guid chunk s)
  unfolding add_version
  add_version-IsPublished name guid chunk s =
      bind-Good name (version guid chunk) (svc.get_properties name) _ s λ properties t.
        if-cases (λ (m : M svc WriteEnd). Good name (version guid chunk) (m t))
          (same_version chunk (to_dict properties.metadata)) {x = pure svc identical}
          {y = among_versions name guid chunk properties} (λ _ h. cc)
          (λ _. among_versions-IsPublished name guid chunk properties t)

  write_chunk-IsPublished :
      (name guid : Bytes) (chunk : PromptChunk) (s : svc.State)
      → Good name (version guid chunk) (write_chunk svc name guid chunk s)
  unfolding write_chunk
  write_chunk-IsPublished name guid chunk s =
      by (svc.upload name (content chunk) (chunk_metadata chunk name) true s)
    where
      by :
          (r : Result (Unit {0}) × svc.State)
          → Good name (version guid chunk) (elim r.0 as (λ x. Result WriteEnd × svc.State) [
            | ok _ ↦ (ok first_version, r.1)
            | throw e ↦ elim (is_conflict e) [
              | true ↦ add_version svc name guid chunk r.1
              | false ↦ (throw e, r.1)
            ]
          ])
      by (ok _, t) = λ h. cc
      by (throw e, t) =
          elim (is_conflict e)
            as (λ b.
              Good name (version guid chunk)
                (elim b [ true ↦ add_version svc name guid chunk t | false ↦ (throw e, t) ])) [
                  | true ↦ add_version-IsPublished name guid chunk t
                  | false ↦ λ h. cc
                ]

  swallow-additional :
      (r : Result WriteEnd) → swallow r ≡ ok additional_version → r ≡ ok additional_version
  unfolding swallow
  swallow-additional (ok end) h = h
  swallow-additional (throw (storage_exception status)) h = cc
  swallow-additional (throw invalid_argument) h = h
  swallow-additional (throw out_of_range) h = h
  swallow-additional (throw (runtime_error text)) h = h

  -- A WriteAsync that ends as an additional version has, as the last thing that it does, the new version's
  -- entry accepted in the metadata of the block's blob: a SetMetadata succeeded whose metadata lists that
  -- version, under the random name, as the newest one.
  pub write_async-IsPublished :
      (base64 : Base64Url) (guid : Bytes) (chunk : PromptChunk) (s : svc.State)
      → (write_async svc base64 guid chunk s).0 ≡ ok additional_version
      → IsPublished svc
          (encode_tokens_to_blob_name base64 chunk.tokens)
          (record { hash = chunk.hash; parent_hash = chunk.parent_hash; location = guid })
          (write_async svc base64 guid chunk s).1
  unfolding write_async
  write_async-IsPublished base64 guid chunk s h =
      write_chunk-IsPublished (encode_tokens_to_blob_name base64 chunk.tokens) guid chunk s
        (swallow-additional _ h)
