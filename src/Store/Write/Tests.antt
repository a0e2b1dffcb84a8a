-- ===== src/Store/Write/Tests.antt =====
-- A second version of a block, in the container in memory.
use kv_store_v.Base.{
  ℕ, zero, suc, List, ◌++◌, map, ◌≡◌, refl, [], ◌∷◌, Option, some, none, All, arith, Bytes, codes,
  equal, lookup, to_string, length, ◌<◌, npos, ok, Result, true,
}
use kv_store_v.Types.{PromptChunk, BlockLocation, empty_chunk}
use kv_store_v.Blob.Name.{encode_tokens_to_blob_name, tokens_bytes}
use kv_store_v.Blob.Versions.{
  serialize_additional_versions, serialize_version, serialize_rest, AdditionalVersion,
}
use kv_store_v.Blob.Versions.RoundTrip.{IsWritable}
use kv_store_v.Blob.Contract.{Stored}
use kv_store_v.Blob.Memory.{memory, plain, memory-contract, Container}
use kv_store_v.Store.Lookup.{next_location, lookup_tokens}
use kv_store_v.Store.Read.{read_async}
use kv_store_v.Store.Write.{additional_version, chunk_metadata, content, write_async}
use kv_store_v.Store.Write.Prompt.{IsFresh, prompt_tokens, write_all}
use kv_store_v.Store.Write.Prompt.Found.{found_at, read_back}
use kv_store_v.Store.Write.Prompt.Chain.{write_all-lookup_tokens}
use kv_store_v.Store.Write.Published.{IsPublished}
use kv_store_v.Store.Write.Published.Whole.{write_async-IsPublished}
use kv_store_v.Store.Write.Second.{write_async-second}

abbrev chunk : PromptChunk
chunk = record empty_chunk {
  hash = 41;
  parent_hash = 40;
  buffer = 1 ∷ 2 ∷ [];
  buffer_size = 2;
  tokens = 7 ∷ 8 ∷ [];
}

abbrev other : PromptChunk
other = record chunk { hash = 51; parent_hash = 50; buffer = 3 ∷ 4 ∷ [] }

abbrev name : Bytes
name = encode_tokens_to_blob_name plain chunk.tokens

abbrev container : Container
container =
    (name, record { body = content chunk; metadata = chunk_metadata chunk name; writes = 0 }) ∷ []

abbrev first_blob : Stored
first_blob = record {
  body = content chunk;
  metadata = chunk_metadata chunk name;
  etag = to_string 0;
}

present :
    memory-contract.blob (encode_tokens_to_blob_name plain other.tokens) container ≡ some first_blob
unfolding memory-contract lookup equal encode_tokens_to_blob_name tokens_bytes
present = refl

absent : memory-contract.blob (codes "g") container ≡ none
unfolding memory-contract lookup equal encode_tokens_to_blob_name tokens_bytes
absent = refl

abbrev version : AdditionalVersion
version = record { hash = 51; parent_hash = 50; location = codes "g" }

writable : All IsWritable (version ∷ [])
writable = (
  record {
    hash_fits = omega arith;
    parent_fits = omega arith;
    no_quote = ground arith;
    no_brace = ground arith;
  },
  tt,
)

short : length (serialize_additional_versions (version ∷ [])) < npos
unfolding serialize_additional_versions serialize_version serialize_rest to_string
short = omega arith

abbrev after : Container
after = (write_async memory plain (codes "g") other container).1

abbrev next_block : ℕ → Result (Option BlockLocation)
next_block parent =
    next_location memory (λ i n. (memory.get_properties n after).0) 3 parent
      (record { blob_name = name; expected_hash = 0 })

write_async-second_example :
    ((write_async memory plain (codes "g") other container).0 ≡ ok additional_version)
    × (next_block 50 ≡ ok (some (record { hash = 51; location = codes "g" })))
    × (next_block 40 ≡ ok (some (record { hash = 41; location = name })))
    × ((read_async memory (codes "g") after).0
        ≡ ok (
          true,
          record empty_chunk { hash = 51; parent_hash = 50; buffer = 3 ∷ 4 ∷ []; buffer_size = 2 },
        ))
write_async-second_example =
    write_async-second memory memory-contract plain (codes "g") chunk other container first_blob
      present refl absent (omega arith) (omega arith) (λ e. absurd (omega arith)) (omega arith)
      (omega arith) writable short 2 0

write_async-IsPublished_example :
    IsPublished memory (encode_tokens_to_blob_name plain other.tokens) version after
write_async-IsPublished_example =
    write_async-IsPublished memory plain (codes "g") other container write_async-second_example.0

abbrev repeat : ℕ → ℕ → List ℕ
repeat zero x = []
repeat (suc n) x = x ∷ repeat n x

abbrev prompt : List PromptChunk
prompt =
    (record empty_chunk { hash = 41; parent_hash = 40; buffer = 1 ∷ []; tokens = repeat 128 7 })
    ∷ (record empty_chunk { hash = 42; parent_hash = 41; buffer = 2 ∷ []; tokens = repeat 128 8 })
    ∷ []

abbrev same_guid : PromptChunk → Bytes
same_guid _ = codes "g"

prompt-IsFresh : IsFresh memory memory-contract plain [] prompt
unfolding memory-contract lookup equal encode_tokens_to_blob_name tokens_bytes
prompt-IsFresh = (refl, (refl, tt), (refl, tt, tt))

abbrev stored_prompt : Container
stored_prompt = write_all memory memory-contract plain same_guid prompt []

write_all-lookup_tokens_example :
    (lookup_tokens memory
        (λ k n. (memory.get_properties n stored_prompt).0)
        plain
        (prompt_tokens prompt ++ 9 ∷ [])
        []
      ≡ ok (record { cached_blocks = 2; last_hash = 42; locations = map (found_at plain) prompt }))
    × All
        (λ chunk.
          (read_async memory (encode_tokens_to_blob_name plain chunk.tokens) stored_prompt).0
          ≡ ok (true, read_back chunk))
        prompt
write_all-lookup_tokens_example =
    write_all-lookup_tokens memory memory-contract plain same_guid 40 prompt [] [] (9 ∷ [])
      (refl, omega arith, omega arith, refl, (refl, omega arith, omega arith, refl, tt))
      prompt-IsFresh (omega arith)
