-- ===== src/Service/Unary/EndToEnd.antt =====
-- A block that one call writes, other calls find and read; and a write that fails is reported as done.
use kv_store_v.Base.{
  ℕ, ◌<◌, ◌≡◌, refl, ap, true, false, List, [], ◌∷◌, none, some, Bytes, empty, length, word, arith,
  ok, throw, Exn, storage_exception, other_status,
}
use kv_store_v.Types.{PromptChunk}
use kv_store_v.Blob.Name.{Base64Url, encode_tokens_to_blob_name}
use kv_store_v.Blob.Service.{BlobService}
use kv_store_v.Blob.Contract.{BlobContract}
use kv_store_v.Store.Lookup.{block_size}
use kv_store_v.Store.Write.{write_async, write_chunk, swallow, content, chunk_metadata, swallowed}
use kv_store_v.Store.Write.First.{
  take_all, write_async-first, read_async-write, lookup_tokens-write,
}
use kv_store_v.Service.Messages.{ProtoChunk}
use kv_store_v.Service.Unary.{
  WriteRequest, Reply, succeed, from_proto, lookup_reactor, read_reactor, write_reactor,
}

write_async-failure :
    (svc : BlobService) (base64 : Base64Url) (guid : Bytes) (chunk : PromptChunk) (n : ℕ)
    (s s' : svc.State)
    → svc.upload
        (encode_tokens_to_blob_name base64 chunk.tokens)
        (content chunk)
        (chunk_metadata chunk (encode_tokens_to_blob_name base64 chunk.tokens))
        true
        s
      ≡ (throw (storage_exception (other_status n)), s')
    → write_async svc base64 guid chunk s ≡ (ok swallowed, s')
unfolding write_async write_chunk swallow
write_async-failure svc base64 guid chunk n s s' refused = ground (arith, refused)

-- With the names and the chunk given and the store resolved: if the service answers the upload with
-- a failure that is no conflict and no failed precondition, such as 403 or 500, then the Write call
-- still finishes with OK and reports success.
pub write_reactor-failure :
    (svc : BlobService) (what : Exn → Bytes) (storage_us total_us : ℕ) (base64 : Base64Url)
    (guid : Bytes) (request : WriteRequest) (chunk : ProtoChunk) (n : ℕ) (s s' : svc.State)
    → empty request.resource_name ≡ false
    → empty request.container_name ≡ false
    → request.chunk ≡ some chunk
    → svc.upload
        (encode_tokens_to_blob_name base64 chunk.tokens)
        (content (from_proto chunk))
        (chunk_metadata (from_proto chunk) (encode_tokens_to_blob_name base64 chunk.tokens))
        true
        s
      ≡ (throw (storage_exception (other_status n)), s')
    → write_reactor svc what true storage_us total_us base64 guid request s
      ≡ (succeed none storage_us total_us, s')
unfolding write_reactor
write_reactor-failure svc what storage_us total_us base64 guid request chunk n s s' r c given
      refused =
    rw (r, c, given, write_async-failure svc base64 guid (from_proto chunk) n s s' refused)

module _ (svc : BlobService) (c : BlobContract svc) (what : Exn → Bytes) (storage_us total_us : ℕ)
    (base64 : Base64Url) (guid resource container : Bytes) (chunk : ProtoChunk) (s : svc.State)
    (resource_given : empty resource ≡ false) (container_given : empty container ≡ false)
    (absent : c.blob (encode_tokens_to_blob_name base64 chunk.tokens) s ≡ none) where
  abbrev written : Reply (Unit {0}) × svc.State
  written =
      write_reactor svc what true storage_us total_us base64 guid
        (record { resource_name = resource; container_name = container; chunk = some chunk }) s

  write_reactor-end :
      written
      ≡ (succeed none storage_us total_us, (write_async svc base64 guid (from_proto chunk) s).1)
  unfolding write_reactor
  write_reactor-end = rw (
    resource_given,
    container_given,
    (write_async-first svc c base64 guid (from_proto chunk) s absent).0,
  )

  -- Against a service that behaves as documented, with the store resolved and the names given: a
  -- Write call for a block of 128 tokens with 64-bit hashes that is not stored yet succeeds, and
  -- then a Lookup call for the block's tokens answers with that one block, its hash and its blob's
  -- name.
  pub lookup_reactor-write :
      (hashes : List ℕ)
      → length chunk.tokens ≡ block_size
      → chunk.hash < word
      → chunk.parent_hash < word
      → (written.0 ≡ succeed none storage_us total_us)
        × (lookup_reactor svc what true storage_us total_us base64
              (λ k n. (svc.get_properties n written.1).0)
              (record {
                resource_name = resource;
                container_name = container;
                partition_key = [];
                completion_id = [];
                tokens = chunk.tokens;
                precomputed_hashes = hashes;
              })
            ≡ succeed
                (some (record {
                  cached_blocks = 1;
                  last_hash = chunk.hash;
                  locations =
                      (record {
                        hash = chunk.hash;
                        location = encode_tokens_to_blob_name base64 chunk.tokens;
                      })
                      ∷ [];
                }))
                storage_us
                total_us)
  unfolding lookup_reactor
  lookup_reactor-write hashes full hf pf =
      rw
        (
          write_reactor-end,
          resource_given,
          container_given,
          some_tokens chunk.tokens full,
          lookup_tokens-write svc c base64 guid (from_proto chunk) s absent hashes full hf pf,
        )
        (refl, refl)
    where
      some_tokens : (tokens : List ℕ) → length tokens ≡ block_size → empty tokens ≡ false
      some_tokens tokens h = ground (arith, h)

  -- After a Write call for a block with 64-bit hashes that was not stored yet, a Read call at its
  -- blob's name answers with the buffer, the hash and the parent hash that were written, and with
  -- an empty partition key, completion id and token list.
  pub read_reactor-write :
      empty (encode_tokens_to_blob_name base64 chunk.tokens) ≡ false
      → chunk.hash < word
      → chunk.parent_hash < word
      → (read_reactor svc what true storage_us total_us
          (record {
            resource_name = resource;
            container_name = container;
            location = encode_tokens_to_blob_name base64 chunk.tokens;
            completion_id = [];
          })
          written.1).0
        ≡ succeed
            (some (
              some (record {
                hash = chunk.hash;
                partition_key = [];
                parent_hash = chunk.parent_hash;
                completion_id = [];
                buffer = chunk.buffer;
                tokens = [];
              })))
            storage_us
            total_us
  unfolding read_reactor
  read_reactor-write named hf pf =
      rw
        (
          write_reactor-end,
          resource_given,
          container_given,
          named,
          read_async-write svc c base64 guid (from_proto chunk) s absent hf pf,
        )
        (ap
          (λ (b : Bytes).
            succeed
              (some (
                some (record chunk {
                  partition_key = [];
                  completion_id = [];
                  buffer = b;
                  tokens = [];
                })))
              storage_us total_us)
          (take_all (length chunk.buffer) chunk.buffer refl))
