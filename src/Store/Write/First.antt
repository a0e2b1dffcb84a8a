-- ===== src/Store/Write/First.antt =====
-- The first write of a block, and what Read, Lookup and a second write see of it.
use kv_store_v.Base.{
  ℕ, zero, suc, ◌<◌, ◌≡◌, refl, ap, true, List, [], ◌∷◌, some, none, arith, if◌then◌else◌, Bytes,
  codes, equal, equal_self, length, take, ok, word, to_string, stoull-to_string, lookup,
}
use kv_store_v.Types.{PromptChunk, empty_chunk}
use kv_store_v.Blob.Name.{Base64Url, encode_tokens_to_blob_name}
use kv_store_v.Blob.Service.{BlobService, metadata_find}
use kv_store_v.Blob.Contract.{Stored, BlobContract}
use kv_store_v.Store.Lookup.{
  block_size, Probe, prepare_blocks, hash_or_zero, read_metadata, probe_block, choose_version,
  next_location, follow_chain, lookup_tokens,
}
use kv_store_v.Store.Read.{read_download, read_reply, read_async}
use kv_store_v.Store.Write.{
  first_version, identical, chunk_metadata, content, to_dict, same_version, add_version,
  write_chunk, write_async, swallow,
}

pub take_all {ℓ} : {A : Type ℓ} (n : ℕ) (xs : List A) → length xs ≡ n → take n xs ≡ xs
take_all zero [] h = refl
take_all (suc n) [] h = refl
take_all zero (x ∷ xs) h = absurd (omega arith)
take_all (suc n) (x ∷ xs) h = ap (λ r. x ∷ r) (take_all n xs (omega arith))

-- A block whose default version is the one to be written is left as it is.
write_async-identical :
    (svc : BlobService) (c : BlobContract svc) (base64 : Base64Url) (guid : Bytes)
    (chunk : PromptChunk) (s : svc.State) (b : Stored)
    → c.blob (encode_tokens_to_blob_name base64 chunk.tokens) s ≡ some b
    → same_version chunk (to_dict b.metadata) ≡ true
    → write_async svc base64 guid chunk s ≡ (ok identical, s)
unfolding write_async write_chunk add_version swallow
write_async-identical svc c base64 guid chunk s b found same =
    let name = encode_tokens_to_blob_name base64 chunk.tokens in
    ground (
      arith,
      c.upload_conflict name (content chunk) (chunk_metadata chunk name) s b found,
      c.properties_found name s b found,
    )

module _ (svc : BlobService) (c : BlobContract svc) (chunk : PromptChunk) (name : Bytes) where
  open c use {same_key_self, same_key_parent, hash_apart, parent_apart, location_apart}

  pub find_hash :
      metadata_find svc (codes "hash") (chunk_metadata chunk name) ≡ some (to_string chunk.hash)
  unfolding metadata_find
  find_hash = ground (arith, same_key_self (codes "hash"))

  pub find_parent :
      metadata_find svc (codes "parenthash") (chunk_metadata chunk name)
      ≡ some (to_string chunk.parent_hash)
  unfolding metadata_find
  find_parent = ground (arith, hash_apart, same_key_self (codes "parenthash"))

  pub find_parent_camel :
      metadata_find svc (codes "parentHash") (chunk_metadata chunk name)
      ≡ some (to_string chunk.parent_hash)
  unfolding metadata_find
  find_parent_camel = ground (arith, hash_apart, same_key_parent)

  pub find_none :
      (metadata_find svc (codes "partitionKey") (chunk_metadata chunk name) ≡ none)
      × (metadata_find svc (codes "additionalversions") (chunk_metadata chunk name) ≡ none)
      × (metadata_find svc (codes "multiversion") (chunk_metadata chunk name) ≡ none)
  unfolding metadata_find
  find_none = ground (arith, hash_apart, parent_apart, location_apart)

  same_version_self : same_version chunk (to_dict (chunk_metadata chunk name)) ≡ true
  unfolding same_version to_dict lookup equal
  same_version_self =
      ground (arith, equal_self (to_string chunk.hash), equal_self (to_string chunk.parent_hash))

module _ (svc : BlobService) (c : BlobContract svc) (base64 : Base64Url) (guid : Bytes)
    (chunk : PromptChunk) (s : svc.State)
    (absent : c.blob (encode_tokens_to_blob_name base64 chunk.tokens) s ≡ none) where
  abbrev name : Bytes
  name = encode_tokens_to_blob_name base64 chunk.tokens

  written : svc.State
  written = (svc.upload name (content chunk) (chunk_metadata chunk name) true s).1

  write_async-end : write_async svc base64 guid chunk s ≡ (ok first_version, written)
  unfolding write_async write_chunk swallow written
  write_async-end =
      ground (arith, c.upload_stores name (content chunk) (chunk_metadata chunk name) true s absent)

  abbrev stored : Stored
  stored = record {
    body = content chunk;
    metadata = chunk_metadata chunk name;
    etag = c.new_etag name s;
  }

  blob-written : c.blob name written ≡ some stored
  unfolding written
  blob-written = ground (
    arith,
    c.blob-upload name (content chunk) (chunk_metadata chunk name) true s name absent,
    equal_self name,
  )

  -- Against a service that behaves as documented, writing a block whose blob is not there ends as a
  -- first version. The blob then holds the chunk's buffer with its hash, parent hash and own name
  -- as metadata, and no other blob changes.
  pub write_async-first :
      ((write_async svc base64 guid chunk s).0 ≡ ok first_version)
      × ((j : Bytes)
          → c.blob j (write_async svc base64 guid chunk s).1 ≡ (
              if equal (encode_tokens_to_blob_name base64 chunk.tokens) j
              then some (record {
                body = content chunk;
                metadata = chunk_metadata chunk (encode_tokens_to_blob_name base64 chunk.tokens);
                etag = c.new_etag (encode_tokens_to_blob_name base64 chunk.tokens) s;
              })
              else c.blob j s))
  unfolding written
  write_async-first =
      rw write_async-end
        (refl, λ j. c.blob-upload name (content chunk) (chunk_metadata chunk name) true s j absent)

  -- Against a service that behaves as documented, after a write of a block whose blob was not there, a second
  -- write with the same tokens, hash and parent hash ends as identical and changes nothing, whatever
  -- buffer and random name it brings.
  pub write_async_again :
      (guid' : Bytes) (again : PromptChunk)
      → again.tokens ≡ chunk.tokens
      → again.hash ≡ chunk.hash
      → again.parent_hash ≡ chunk.parent_hash
      → write_async svc base64 guid' again (write_async svc base64 guid chunk s).1
        ≡ (ok identical, (write_async svc base64 guid chunk s).1)
  unfolding same_version
  write_async_again guid' again t h p =
      rw write_async-end
        (write_async-identical svc c base64 guid' again written stored (rw t blob-written) same)
    where
      same : same_version again (to_dict (chunk_metadata chunk name)) ≡ true
      same = rw (h, p) (same_version_self svc c chunk name)

  -- After such a first write with 64-bit hashes, reading the block's blob gives the stored buffer,
  -- hash and parent hash; the partition key, the tokens and the completion id come back empty.
  pub read_async-write :
      chunk.hash < word
      → chunk.parent_hash < word
      → (read_async svc
          (encode_tokens_to_blob_name base64 chunk.tokens)
          (write_async svc base64 guid chunk s).1).0
        ≡ ok (
          true,
          record empty_chunk {
            hash = chunk.hash;
            parent_hash = chunk.parent_hash;
            buffer = content chunk;
            buffer_size = length (content chunk);
          },
        )
  unfolding read_async read_reply read_download hash_or_zero
  read_async-write hf pf = rw write_async-end (
      ground (
        arith,
        c.download_found name written stored blob-written,
        find_parent_camel svc c chunk name,
        find_hash svc c chunk name,
        find_none svc c chunk name,
        stoull-to_string chunk.hash hf,
        stoull-to_string chunk.parent_hash pf,
      ))

  abbrev probe : Probe
  probe = record {
    stored_hash = chunk.hash;
    parent_hash = chunk.parent_hash;
    multi_version = [];
    additional_versions = [];
  }

  probe-written :
      chunk.hash < word
      → chunk.parent_hash < word
      → probe_block svc (svc.get_properties name written).0 ≡ ok (some probe)
  unfolding probe_block read_metadata hash_or_zero
  probe-written hf pf = ground (
    arith,
    c.properties_found name written stored blob-written,
    find_parent svc c chunk name,
    find_hash svc c chunk name,
    find_none svc c chunk name,
    stoull-to_string chunk.hash hf,
    stoull-to_string chunk.parent_hash pf,
  )

  -- After such a first write of a block of 128 tokens with 64-bit hashes, a lookup of these tokens
  -- finds exactly that block, at its own blob.
  pub lookup_tokens-write :
      (hashes : List ℕ)
      → length chunk.tokens ≡ block_size
      → chunk.hash < word
      → chunk.parent_hash < word
      → lookup_tokens svc
          (λ k n. (svc.get_properties n (write_async svc base64 guid chunk s).1).0)
          base64
          chunk.tokens
          hashes
        ≡ ok (record {
          cached_blocks = 1;
          last_hash = chunk.hash;
          locations =
              (record {
                hash = chunk.hash;
                location = encode_tokens_to_blob_name base64 chunk.tokens;
              })
              ∷ [];
        })
  unfolding lookup_tokens prepare_blocks follow_chain next_location choose_version
  lookup_tokens-write hashes full hf pf =
      rw (write_async-end, full, take_all block_size chunk.tokens full, probe-written hf pf)
