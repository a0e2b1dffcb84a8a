-- ===== src/Store/Tests.antt =====
-- The storage library's theorems at concrete inputs, over the container in memory.
use kv_store_v.Base.{
  ◌⊎◌, inl, inr, Status, throw, storage_exception, other_status, Option-cases, drop, ◌-◌, ℕ, zero,
  suc, ◌≡◌, refl, List, [], ◌∷◌, map, ◌%◌, ◌^◌, arith, none, some, Bytes, codes, get_elem?, Result,
  ok, length, ◌/◌, ◌≤◌, equal, stoull, lookup, All, ◌<◌, npos, to_string, if◌then◌else◌, suc, ◌+◌,
}
use kv_store_v.Types.{PromptChunk, LookupResult, empty_chunk}
use kv_store_v.Blob.Name.{
  encode_tokens_to_blob_name, decode_blob_name_to_tokens, decode-encode_tokens,
}
use kv_store_v.Blob.Versions.{
  AdditionalVersion, parse_additional_versions, serialize_additional_versions, serialize_version,
  serialize_rest,
}
use kv_store_v.Blob.Versions.RoundTrip.{IsWritable}
use kv_store_v.Blob.Versions.Loop.{parse-serialize}
use kv_store_v.Blob.Service.{Properties, metadata_find}
use kv_store_v.Blob.Memory.{memory, plain, memory-contract}
use kv_store_v.Store.Lookup.{
  block_size, prepare_blocks, probe_block, Probe, next_location, read_metadata, hash_or_zero,
  choose_version, follow_chain, lookup_tokens,
}
use kv_store_v.Store.Lookup.Chain.{IsChain, IsMaximal, last_of, lookup_tokens-IsChain}
use kv_store_v.Store.Lookup.Head.{lookup_tokens-head}
use kv_store_v.Store.Write.Retry.{evict-newest}
use kv_store_v.Store.Write.{
  evict, max_versions, write_async, chunk_metadata, content, first_version, identical,
}
use kv_store_v.Store.Write.First.{write_async-first, write_async_again}

abbrev repeat : ℕ → ℕ → List ℕ
repeat zero x = []
repeat (suc n) x = x ∷ repeat n x

abbrev block : List ℕ
block = repeat 128 7

abbrev chunk : PromptChunk
chunk = record empty_chunk {
  hash = 41;
  parent_hash = 40;
  buffer = 1 ∷ 2 ∷ 3 ∷ [];
  buffer_size = 2;
  tokens = block;
}

absent : memory-contract.blob (encode_tokens_to_blob_name plain block) [] ≡ none
unfolding memory-contract lookup
absent = refl

abbrev name : Bytes
name = encode_tokens_to_blob_name plain block

abbrev again : PromptChunk
again = record chunk { buffer = 9 ∷ [] }

decode-encode_tokens_example :
    decode_blob_name_to_tokens plain (encode_tokens_to_blob_name plain (5 ∷ (2 ^ 32 + 5) ∷ []))
    ≡ map (λ t. t % 2 ^ 32) (5 ∷ (2 ^ 32 + 5) ∷ [])
decode-encode_tokens_example = decode-encode_tokens plain (5 ∷ (2 ^ 32 + 5) ∷ [])

abbrev versions : List AdditionalVersion
versions =
    (record { hash = 12; parent_hash = 3; location = codes "ab-9" })
    ∷ (record { hash = 7; parent_hash = 0; location = codes "c" })
    ∷ []

writable : All IsWritable versions
writable = (
  record {
    hash_fits = omega arith;
    parent_fits = omega arith;
    no_quote = ground arith;
    no_brace = ground arith;
  },
  (
    record {
      hash_fits = omega arith;
      parent_fits = omega arith;
      no_quote = ground arith;
      no_brace = ground arith;
    },
    tt,
  ),
)

short : length (serialize_additional_versions versions) < npos
unfolding serialize_additional_versions serialize_version serialize_rest to_string
short = omega arith

parse-serialize_example :
    parse_additional_versions (serialize_additional_versions versions) ≡ ok versions
parse-serialize_example = parse-serialize versions writable short

write_async-first_example :
    ((write_async memory plain (codes "g") chunk []).0 ≡ ok first_version)
    × ((j : Bytes)
        → memory-contract.blob j (write_async memory plain (codes "g") chunk []).1 ≡ (
            if equal name j
            then some (record {
              body = content chunk;
              metadata = chunk_metadata chunk name;
              etag = memory-contract.new_etag name [];
            })
            else memory-contract.blob j []))
write_async-first_example =
    write_async-first memory memory-contract plain (codes "g") chunk [] absent

write_async_again_example :
    write_async memory plain (codes "h") again (write_async memory plain (codes "g") chunk []).1
    ≡ (ok identical, (write_async memory plain (codes "g") chunk []).1)
write_async_again_example =
    write_async_again memory memory-contract plain (codes "g") chunk [] absent (codes "h") again
      refl refl refl

-- Every blob is there, with hash 41 and parent hash 40.
abbrev replies : ℕ → Bytes → Result Properties
replies k n = ok (record { etag = []; metadata = chunk_metadata chunk n })

abbrev one_block : LookupResult
one_block = record {
  cached_blocks = 1;
  last_hash = 41;
  locations = (record { hash = 41; location = name }) ∷ [];
}

two_blocks : lookup_tokens memory replies plain (repeat 300 7) [] ≡ ok one_block
unfolding lookup_tokens follow_chain prepare_blocks next_location probe_block read_metadata
    hash_or_zero metadata_find equal stoull to_string choose_version
two_blocks = refl

lookup_tokens-IsChain_example :
    let blocks = prepare_blocks plain (repeat 300 7) [] (length (repeat 300 7) / block_size) 0 in
    IsChain memory replies blocks 0 0 one_block.locations
    × IsMaximal memory replies blocks 0 0 one_block.locations
    × (one_block.cached_blocks ≡ length one_block.locations)
    × (one_block.last_hash ≡ last_of 0 one_block.locations)
    × (one_block.cached_blocks ≤ length (repeat 300 7) / block_size)
lookup_tokens-IsChain_example =
    lookup_tokens-IsChain memory replies plain (repeat 300 7) [] one_block two_blocks

abbrev probe : Probe
probe = record { stored_hash = 41; parent_hash = 40; multi_version = []; additional_versions = [] }

probed : probe_block memory (replies 0 name) ≡ ok (some probe)
unfolding probe_block read_metadata hash_or_zero metadata_find equal stoull to_string
probed = refl

lookup_tokens-head_example :
    get_elem? one_block.locations 0 ≡ some (record { hash = 41; location = name })
lookup_tokens-head_example =
    lookup_tokens-head memory replies plain (repeat 300 7) [] probe one_block (omega arith) probed
      two_blocks

deletions :
    (n : Bytes) (s : memory.State)
    → (memory.delete n s).0 ≡ ok tt
      ⊎ (status : Status) × ((memory.delete n s).0 ≡ throw (storage_exception status))
deletions n s = elim (Option-cases (lookup n s)) [
  | inl e ↦ inr (other_status 404, ground (arith, e))
  | inr (b, e) ↦ inl (ground (arith, e))
]

evict-newest_example :
    (evict memory versions []).0 ≡ ok (drop (length versions - max_versions) versions)
evict-newest_example = evict-newest memory deletions versions []
