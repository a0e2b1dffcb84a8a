-- ===== src/Service/Unary/Tests.antt =====
-- The unary calls' theorems at concrete inputs, over the container in memory.
use kv_store_v.Base.{
  ℕ, zero, suc, ◌≡◌, ◌↔◌, ◌⊎◌, refl, true, false, List, [], ◌∷◌, none, some, Bytes, codes, Exn,
  throw, storage_exception, other_status, lookup, empty,
}
use kv_store_v.Blob.Name.{encode_tokens_to_blob_name, tokens_bytes}
use kv_store_v.Blob.Service.{BlobService}
use kv_store_v.Blob.Memory.{memory, plain, memory-contract}
use kv_store_v.Service.Messages.{ok_status, ReadRequest, ProtoChunk}
use kv_store_v.Service.Unary.{LookupRequest, WriteRequest, succeed, write_reactor}
use kv_store_v.Service.Unary.Written.{IsWritten, IsReady, write_reactor_iff}
use kv_store_v.Service.Unary.EndToEnd.{write_reactor-failure}

abbrev repeat : ℕ → ℕ → List ℕ
repeat zero x = []
repeat (suc n) x = x ∷ repeat n x

abbrev chunk : ProtoChunk
chunk = record {
  hash = 41;
  partition_key = codes "p";
  parent_hash = 40;
  completion_id = codes "id";
  buffer = 1 ∷ 2 ∷ [];
  tokens = repeat 128 7;
}

abbrev request : WriteRequest
request = record { resource_name = codes "r"; container_name = codes "c"; chunk = some chunk }

abbrev name : Bytes
name = encode_tokens_to_blob_name plain chunk.tokens

abbrev quiet : Exn → Bytes
quiet e = []

abbrev look : LookupRequest
look = record {
  resource_name = codes "r";
  container_name = codes "c";
  partition_key = [];
  completion_id = [];
  tokens = repeat 128 7;
  precomputed_hashes = [];
}

abbrev at_name : ReadRequest
at_name = record {
  resource_name = codes "r";
  container_name = codes "c";
  location = name;
  completion_id = [];
}

absent : memory-contract.blob (encode_tokens_to_blob_name plain chunk.tokens) [] ≡ none
unfolding memory-contract lookup
absent = refl

named : empty (encode_tokens_to_blob_name plain chunk.tokens) ≡ false
unfolding encode_tokens_to_blob_name tokens_bytes
named = refl

-- A container that refuses every upload.
abbrev refusing : BlobService
refusing = record memory {
  upload = λ n body m only_new s. (throw (storage_exception (other_status 403)), s);
}

write_reactor_iff_example :
    let r = write_reactor memory quiet true 5 9 plain (codes "g") request [] in
    ((r.0.finished ≡ ok_status ∷ []) ↔ IsWritten memory quiet true 5 9 plain (codes "g") request [])
    × ((r.0.response.success ≡ true) ↔ IsWritten memory quiet true 5 9 plain (codes "g") request [])
    × (IsReady memory quiet true 5 9 request ⊎ (r.1 ≡ []))
write_reactor_iff_example = write_reactor_iff memory quiet true 5 9 plain (codes "g") request []

write_reactor-failure_example :
    write_reactor refusing quiet true 5 9 plain (codes "g") request [] ≡ (succeed none 5 9, [])
write_reactor-failure_example =
    write_reactor-failure refusing quiet 5 9 plain (codes "g") request chunk 403 [] [] refl refl
      refl refl
