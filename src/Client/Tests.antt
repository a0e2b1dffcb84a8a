-- ===== src/Client/Tests.antt =====
-- The client's theorems at concrete inputs, over reactors that serve the container in memory.
use mathlib.Core.List.Perm
use mathlib.Core.List.{Perm}
use kv_store_v.Base.{
  ℕ, zero, suc, ◌≡◌, refl, ap, sym, subst, true, false, List, [], ◌∷◌, none, some, map, Bytes,
  codes, arith, empty, lookup, Exn,
}
use kv_store_v.Types.{PromptChunk, empty_chunk, LookupResult, no_blocks}
use kv_store_v.Blob.Name.{encode_tokens_to_blob_name, tokens_bytes}
use kv_store_v.Blob.Memory.{memory, plain, memory-contract}
use kv_store_v.Store.Lookup.{lookup_tokens}
use kv_store_v.Store.Read as Read
use kv_store_v.Store.Write as Write
use kv_store_v.Service.Messages.{
  GrpcStatus, ok_status, invalid_argument_status, internal_status, ReadRequest, read_response,
  to_proto,
}
use kv_store_v.Service.Unary.{
  LookupRequest, WriteRequest, Response, Reply, from_proto, lookup_reactor, read_reactor,
  write_reactor,
}
use kv_store_v.Client.Calls as Client
use kv_store_v.Client.Calls.{Impl, Elapsed, RpcStatus, rpc_ok, rpc_failed, TimedResponse}
use kv_store_v.Client.Calls.Delivery.{IsDelivered, value_or, seen, read_message}
use kv_store_v.Client.Calls.EndToEnd.{
  returned, lookup-lookup_tokens, read_async-read_async, write_async-write_async,
}
use kv_store_v.Client.Calls.RoundTrip.{Server, write-lookup-read}
use kv_store_v.Client.Stream.{ReaderWriter, streaming_read_async}
use kv_store_v.Client.Stream.Order.{library_read, streaming_read_async-Perm}

abbrev repeat : ℕ → ℕ → List ℕ
repeat zero x = []
repeat (suc n) x = x ∷ repeat n x

abbrev chunk : PromptChunk
chunk = record {
  hash = 41;
  partition_key = codes "p";
  parent_hash = 40;
  buffer = 1 ∷ 2 ∷ [];
  buffer_size = 2;
  tokens = repeat 128 7;
  completion_id = codes "id";
}

abbrev name : Bytes
name = encode_tokens_to_blob_name plain chunk.tokens

abbrev quiet : Exn → Bytes
quiet e = []

abbrev impl : Impl
impl = record {
  initialized = true;
  resource_name = codes "r";
  container_name = codes "c";
  server_address = codes "localhost:50051";
}

abbrev elapsed : Elapsed
elapsed = record { serialize = 1; grpc = 20; deserialize = 2 }

-- What gRPC does with a reply.
abbrev status_of : List GrpcStatus → RpcStatus
status_of [] = rpc_failed []
status_of (ok_status ∷ rest) = rpc_ok
status_of (invalid_argument_status text ∷ rest) = rpc_failed text
status_of (internal_status text ∷ rest) = rpc_failed text

abbrev deliver :
    {Body Message : Type 0} → (Response Body → Message) → Reply Body → RpcStatus × Message
deliver view reply = (status_of reply.finished, view reply.response)

delivered :
    {Body Message : Type 0} (view : Response Body → Message) (reply : Reply Body)
    → IsDelivered view reply (deliver view reply)
delivered view reply = record {
  answered = λ e. ap (λ (f : List GrpcStatus). (status_of f, view reply.response)) e;
  refused = λ text e. ap status_of e;
  failed = λ text e. ap status_of e;
}

abbrev whole : {A : Type 0} → A → A
whole a = a

abbrev look : memory.State → LookupRequest → RpcStatus × Response LookupResult
look s q =
    deliver whole
      (lookup_reactor memory quiet true 5 9 plain (λ k n. (memory.get_properties n s).0) q)

abbrev read : ReadRequest → memory.State → (RpcStatus × TimedResponse) × memory.State
read q s =
    let (reply, s') = read_reactor memory quiet true 5 9 q s in (deliver read_message reply, s')

abbrev write : WriteRequest → memory.State → (RpcStatus × Response (Unit {0})) × memory.State
write q s =
    let (reply, s') = write_reactor memory quiet true 5 9 plain (codes "g") q s in
    (deliver whole reply, s')

abbrev server : Server memory quiet 5 9 plain (codes "g")
server = record {
  lookup_stub = look;
  read_stub = read;
  write_stub = write;
  lookup_carried = λ s q. delivered whole _;
  read_carried = λ q s. (delivered read_message _, refl);
  write_carried = λ q s. (delivered whole _, refl);
}

absent : memory-contract.blob (encode_tokens_to_blob_name plain chunk.tokens) [] ≡ none
unfolding memory-contract lookup
absent = refl

named : empty (encode_tokens_to_blob_name plain chunk.tokens) ≡ false
unfolding encode_tokens_to_blob_name tokens_bytes
named = refl

abbrev after : memory.State
after = (Client.write_async write elapsed impl chunk []).1

write-lookup-read_example :
    (returned (Client.write_async write elapsed impl chunk []).0 ≡ true)
    × ((Client.lookup (look after) elapsed impl (codes "p") (codes "id") chunk.tokens []).0
        ≡ record {
          cached_blocks = 1;
          last_hash = 41;
          locations = (record { hash = 41; location = name }) ∷ [];
        })
    × (seen (Client.read_async read elapsed impl name (codes "id") after).0 ≡ (
      true,
      record empty_chunk { hash = 41; parent_hash = 40; buffer = 1 ∷ 2 ∷ []; buffer_size = 2 },
    ))
write-lookup-read_example =
    write-lookup-read memory memory-contract quiet 5 9 plain (codes "g") server elapsed impl chunk
      [] refl refl refl absent (codes "p") (codes "id") [] refl named (omega arith) (omega arith)

lookup-lookup_tokens_example :
    (Client.lookup (look []) elapsed impl (codes "p") (codes "id") chunk.tokens []).0
    ≡ value_or no_blocks
        (lookup_tokens memory (λ k n. (memory.get_properties n []).0) plain chunk.tokens [])
lookup-lookup_tokens_example =
    lookup-lookup_tokens memory quiet true 5 9 elapsed impl plain
      (λ k n. (memory.get_properties n []).0) (look []) (server.lookup_carried []) (codes "p")
      (codes "id") chunk.tokens []

read_async-read_async_example :
    (seen (Client.read_async read elapsed impl (codes "n") (codes "id") []).0
      ≡ value_or (false, empty_chunk) (Read.read_async memory (codes "n") []).0)
    × ((Client.read_async read elapsed impl (codes "n") (codes "id") []).1
        ≡ (Read.read_async memory (codes "n") []).1)
read_async-read_async_example =
    read_async-read_async memory quiet true 5 9 elapsed impl read server.read_carried (codes "n")
      (codes "id") []

write_async-write_async_example :
    (returned (Client.write_async write elapsed impl chunk []).0
      ≡ returned (Write.write_async memory plain (codes "g") (from_proto (to_proto chunk)) []).0)
    × ((Client.write_async write elapsed impl chunk []).1
        ≡ (Write.write_async memory plain (codes "g") (from_proto (to_proto chunk)) []).1)
write_async-write_async_example =
    write_async-write_async memory quiet true 5 9 elapsed impl plain (codes "g") write
      server.write_carried chunk []

abbrev stream : ReaderWriter
stream = record {
  accepts = λ i. true;
  responses = map (λ q. (read_response quiet (library_read memory quiet [] q.location), none));
}

served :
    (qs : List ReadRequest)
    → Perm
        (map (λ r. r.0) (stream.responses qs))
        (map (λ q. read_response quiet (library_read memory quiet [] q.location)) qs)
served qs =
    subst
      (λ t. Perm t (map (λ q. read_response quiet (library_read memory quiet [] q.location)) qs))
      (sym (first qs)) (Perm.refl _)
  where
    first :
        (rs : List ReadRequest)
        → map (λ r. r.0) (stream.responses rs)
          ≡ map (λ q. read_response quiet (library_read memory quiet [] q.location)) rs
    first [] = refl
    first (r ∷ rs) =
        ap (λ t. read_response quiet (library_read memory quiet [] r.location) ∷ t) (first rs)

abbrev locations : List Bytes
locations = codes "n" ∷ codes "m" ∷ []

streaming_read_async-Perm_example :
    Perm (map seen (streaming_read_async (some stream) (λ i. 3) 50 impl locations (codes "id"))) (
      map
        (λ location. value_or (false, empty_chunk) (library_read memory quiet [] location))
        locations)
streaming_read_async-Perm_example =
    streaming_read_async-Perm memory quiet (λ i. 3) 50 impl locations (codes "id") stream [] refl
      (λ i. refl) served
