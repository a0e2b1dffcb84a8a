-- ===== src/Client/Calls/RoundTrip.antt =====
-- A block that the client writes is found and read back by the client.
use kv_store_v.Base.{
  ℕ, ◌<◌, ◌≡◌, refl, ◌∙◌, Bool, true, false, List, [], ◌∷◌, none, Bytes, arith, empty, length, word,
  Exn,
}
use kv_store_v.Types.{PromptChunk, empty_chunk, LookupResult}
use kv_store_v.Blob.Name.{Base64Url, encode_tokens_to_blob_name}
use kv_store_v.Blob.Service.{BlobService}
use kv_store_v.Blob.Contract.{BlobContract}
use kv_store_v.Store.Lookup.{block_size}
use kv_store_v.Store.Write as Write
use kv_store_v.Store.Write.First.{
  take_all, write_async-first, read_async-write, lookup_tokens-write,
}
use kv_store_v.Service.Messages.{ReadRequest, to_proto}
use kv_store_v.Service.Unary.{
  LookupRequest, WriteRequest, Response, from_proto, lookup_reactor, read_reactor, write_reactor,
}
use kv_store_v.Client.Calls.{
  Impl, Elapsed, RpcStatus, TimedResponse, lookup, read_async, write_async,
}
use kv_store_v.Client.Calls.Delivery.{IsDelivered, seen, usable, read_message}
use kv_store_v.Client.Calls.EndToEnd.{
  returned, lookup-lookup_tokens, read_async-read_async, write_async-write_async,
}

-- A server at which gRPC carries the reactors' answers; the store is resolved for every call.
pub record Server (svc : BlobService) (what : Exn → Bytes) (storage_us total_us : ℕ)
    (base64 : Base64Url) (guid : Bytes) : Type 0 where
  pub lookup_stub : svc.State → LookupRequest → RpcStatus × Response LookupResult
  pub read_stub : ReadRequest → svc.State → (RpcStatus × TimedResponse) × svc.State
  pub write_stub : WriteRequest → svc.State → (RpcStatus × Response (Unit {0})) × svc.State
  pub lookup_carried :
      (s : svc.State) (q : LookupRequest)
      → IsDelivered
          (λ (m : Response LookupResult). m)
          (lookup_reactor svc what true storage_us total_us base64
            (λ k n. (svc.get_properties n s).0)
            q)
          (lookup_stub s q)
  pub read_carried :
      (q : ReadRequest) (s : svc.State)
      → IsDelivered read_message
          (read_reactor svc what true storage_us total_us q s).0
          (read_stub q s).0
        × ((read_stub q s).1 ≡ (read_reactor svc what true storage_us total_us q s).1)
  pub write_carried :
      (q : WriteRequest) (s : svc.State)
      → IsDelivered
          (λ (m : Response (Unit {0})). m)
          (write_reactor svc what true storage_us total_us base64 guid q s).0
          (write_stub q s).0
        × ((write_stub q s).1 ≡ (write_reactor svc what true storage_us total_us base64 guid q s).1)

module _ (svc : BlobService) (c : BlobContract svc) (what : Exn → Bytes) (storage_us total_us : ℕ)
    (base64 : Base64Url) (guid : Bytes) (server : Server svc what storage_us total_us base64 guid)
    (t : Elapsed) (self : Impl) (chunk : PromptChunk) (s : svc.State)
    (ready : self.initialized ≡ true) (resource_given : empty self.resource_name ≡ false)
    (container_given : empty self.container_name ≡ false)
    (absent : c.blob (encode_tokens_to_blob_name base64 chunk.tokens) s ≡ none) where
  abbrev sent : PromptChunk
  sent = from_proto (to_proto chunk)

  abbrev location : Bytes
  location = encode_tokens_to_blob_name base64 chunk.tokens

  abbrev after : svc.State
  after = (write_async server.write_stub t self chunk s).1

  usable-true : (no_field : Bool) → no_field ≡ false → usable self no_field true ≡ true
  usable-true no_field f = rw (ready, resource_given, container_given, f) refl

  after-write : after ≡ (Write.write_async svc base64 guid sent s).1
  after-write =
      (write_async-write_async svc what true storage_us total_us t self base64 guid
        server.write_stub server.write_carried chunk s).1
      ∙ rw (usable-true false refl) refl

  write-returned : returned (write_async server.write_stub t self chunk s).0 ≡ true
  write-returned =
      (write_async-write_async svc what true storage_us total_us t self base64 guid
        server.write_stub server.write_carried chunk s).0
      ∙ rw (usable-true false refl, (write_async-first svc c base64 guid sent s absent).0) refl

  -- A client that is initialised with names, a server on whose reactors' answers gRPC delivers, a container that
  -- behaves as documented, and a block of 128 tokens with 64-bit hashes that is not stored, with a name that
  -- is not empty: WriteAsync returns, Lookup of the block's tokens then gives this one block with its hash and
  -- blob name, and ReadAsync at that name gives the hash, the parent hash and the buffer that were written.
  pub write-lookup-read :
      (partition_key completion_id : Bytes) (hashes : List ℕ)
      → length chunk.tokens ≡ block_size
      → empty (encode_tokens_to_blob_name base64 chunk.tokens) ≡ false
      → chunk.hash < word
      → chunk.parent_hash < word
      → (returned (write_async server.write_stub t self chunk s).0 ≡ true)
        × ((lookup
              (server.lookup_stub after)
              t
              self
              partition_key
              completion_id
              chunk.tokens
              hashes).0
            ≡ record {
              cached_blocks = 1;
              last_hash = chunk.hash;
              locations = (record { hash = chunk.hash; location = location }) ∷ [];
            })
        × (seen (read_async server.read_stub t self location completion_id after).0 ≡ (
          true,
          record empty_chunk {
            hash = chunk.hash;
            parent_hash = chunk.parent_hash;
            buffer = chunk.buffer;
            buffer_size = length chunk.buffer;
          },
        ))
  write-lookup-read partition_key completion_id hashes full named hf pf = (
    write-returned,
    lookup-lookup_tokens svc what true storage_us total_us t self base64
          (λ k n. (svc.get_properties n after).0) (server.lookup_stub after)
          (server.lookup_carried after) partition_key completion_id chunk.tokens hashes
        ∙ rw
            (
              usable-true (empty chunk.tokens) (some_tokens chunk.tokens full),
              after-write,
              lookup_tokens-write svc c base64 guid sent s absent hashes full hf pf,
            )
            refl,
    (read_async-read_async svc what true storage_us total_us t self server.read_stub
          server.read_carried location completion_id after).0
        ∙ rw
            (
              usable-true (empty location) named,
              after-write,
              read_async-write svc c base64 guid sent s absent hf pf,
              take_all (length chunk.buffer) chunk.buffer refl,
            )
            refl,
  )
    where
      some_tokens : (tokens : List ℕ) → length tokens ≡ block_size → empty tokens ≡ false
      some_tokens tokens h = ground (arith, h)
