-- ===== src/Store/Write/Prompt/Found.antt =====
-- What Lookup and ReadAsync see of a block that is stored as a first version.
use kv_store_v.Base.{
  ℕ, ◌<◌, ◌≡◌, true, ◌⊎◌, [], some, arith, Bytes, length, ok, Result, word, stoull-to_string,
}
use kv_store_v.Types.{PromptChunk, empty_chunk, BlockLocation}
use kv_store_v.Blob.Name.{Base64Url}
use kv_store_v.Blob.Service.{BlobService, Properties}
use kv_store_v.Blob.Contract.{BlobContract}
use kv_store_v.Store.Lookup.{
  Probe, hash_or_zero, read_metadata, probe_block, choose_version, next_location,
}
use kv_store_v.Store.Write.First.{find_hash, find_parent, find_parent_camel, find_none}
use kv_store_v.Store.Read.{read_download, read_reply, read_async}
use kv_store_v.Store.Write.{content}
use kv_store_v.Store.Write.Prompt.{IsStored, name}

-- What ReadAsync gives of such a block.
abbrev pub read_back : PromptChunk → PromptChunk
read_back chunk = record empty_chunk {
  hash = chunk.hash;
  parent_hash = chunk.parent_hash;
  buffer = content chunk;
  buffer_size = length (content chunk);
}

-- Where a block stored as a first version is found.
abbrev pub found_at : Base64Url → PromptChunk → BlockLocation
found_at base64 chunk = record { hash = chunk.hash; location = name base64 chunk }

module _ (svc : BlobService) (c : BlobContract svc) (base64 : Base64Url) where
  module _ (s : svc.State) where
    abbrev pub replies : ℕ → Bytes → Result Properties
    replies k n = (svc.get_properties n s).0

    abbrev probe : PromptChunk → Probe
    probe chunk = record {
      stored_hash = chunk.hash;
      parent_hash = chunk.parent_hash;
      multi_version = [];
      additional_versions = [];
    }

    probe_block-IsStored :
        (chunk : PromptChunk)
        → IsStored svc c base64 s chunk
        → chunk.hash < word
        → chunk.parent_hash < word
        → probe_block svc (svc.get_properties (name base64 chunk) s).0 ≡ ok (some (probe chunk))
    unfolding probe_block read_metadata hash_or_zero
    probe_block-IsStored chunk stored hf pf = ground (
      arith,
      c.properties_found (name base64 chunk) s stored.blob stored.found,
      stored.same,
      find_parent svc c chunk (name base64 chunk),
      find_hash svc c chunk (name base64 chunk),
      find_none svc c chunk (name base64 chunk),
      stoull-to_string chunk.hash hf,
      stoull-to_string chunk.parent_hash pf,
    )

    choose_default :
        (k parent : ℕ) (chunk : PromptChunk)
        → (k ≡ 0) ⊎ (chunk.parent_hash ≡ parent)
        → choose_version k parent (name base64 chunk) (probe chunk)
          ≡ ok (some (found_at base64 chunk))
    unfolding choose_version
    choose_default k parent chunk fit = ground arith

    pub next_location-IsStored :
        (k parent expected_hash : ℕ) (chunk : PromptChunk)
        → IsStored svc c base64 s chunk
        → chunk.hash < word
        → chunk.parent_hash < word
        → (k ≡ 0) ⊎ (chunk.parent_hash ≡ parent)
        → next_location svc replies k parent
            (record { blob_name = name base64 chunk; expected_hash = expected_hash })
          ≡ ok (some (found_at base64 chunk))
    unfolding next_location
    next_location-IsStored k parent expected_hash chunk stored hf pf fit =
        rw (probe_block-IsStored chunk stored hf pf) (choose_default k parent chunk fit)

    pub read_async-IsStored :
        (chunk : PromptChunk)
        → IsStored svc c base64 s chunk
        → chunk.hash < word
        → chunk.parent_hash < word
        → (read_async svc (name base64 chunk) s).0 ≡ ok (true, read_back chunk)
    unfolding read_async read_reply read_download hash_or_zero
    read_async-IsStored chunk stored hf pf = ground (
      arith,
      c.download_found (name base64 chunk) s stored.blob stored.found,
      stored.same,
      stored.same_body,
      find_parent_camel svc c chunk (name base64 chunk),
      find_hash svc c chunk (name base64 chunk),
      find_none svc c chunk (name base64 chunk),
      stoull-to_string chunk.hash hf,
      stoull-to_string chunk.parent_hash pf,
    )
