-- ===== src/Playground/Conversation/Tests.antt =====
-- A conversation and the container in memory that its chunks are written to.
use kv_store_v.Base.{
  ℕ, zero, suc, ◌≡◌, refl, List, [], ◌∷◌, ◌++◌, map, none, true, arith, All, Bytes, codes, equal,
  length, lookup, ok,
}
use kv_store_v.Types.{PromptChunk, no_blocks}
use kv_store_v.Blob.Name.{encode_tokens_to_blob_name, tokens_bytes}
use kv_store_v.Blob.Memory.{memory, plain, memory-contract}
use kv_store_v.Client.Calls.{no_metrics}
use kv_store_v.Store.Lookup.{lookup_tokens}
use kv_store_v.Store.Read.{read_async}
use kv_store_v.Store.Write.Prompt.{IsFresh, last_hash, write_all}
use kv_store_v.Store.Write.Prompt.Found.{found_at, read_back}
use kv_store_v.Playground.Buffer.{
  flush_completed_blocks, start_writes, add_tokens, add_token, get_complete_block_count,
}
use kv_store_v.Playground.Response.{generate_synthetic_response}
use kv_store_v.Playground.Validation.{KvStore}
use kv_store_v.Playground.Conversation.{
  Session, Turn, new_session, add_new, check_cache, run_turn, run_turns,
}
use kv_store_v.Playground.Conversation.Stored.{run_turns-lookup_tokens}

abbrev repeat : ℕ → ℕ → List ℕ
repeat zero x = []
repeat (suc n) x = x ∷ repeat n x

-- A store that holds nothing.
abbrev nothing_stored : KvStore
nothing_stored = record {
  lookup = λ tokens hashes. (no_blocks, no_metrics);
  streaming_read = λ locations. [];
  behind = λ n. 0;
}

-- Two full blocks.
abbrev turn : Turn
turn = record {
  prompt = repeat 128 7 ++ repeat 128 8;
  store = nothing_stored;
  prompt_failure = none;
  response_failure = none;
}

abbrev identity : ℕ → ℕ
identity n = n

abbrev r : Session × List PromptChunk
r = run_turns identity (codes "p") (codes "id") (1 ∷ []) 77 (turn ∷ []) new_session

two_chunks : length r.1 ≡ 2
unfolding generate_synthetic_response run_turns run_turn add_new check_cache flush_completed_blocks
    start_writes add_tokens add_token get_complete_block_count
two_chunks = refl

r-IsFresh : IsFresh memory memory-contract plain [] r.1
unfolding generate_synthetic_response run_turns run_turn add_new check_cache flush_completed_blocks
    start_writes add_tokens add_token get_complete_block_count memory-contract lookup equal
    encode_tokens_to_blob_name tokens_bytes
r-IsFresh = (refl, (refl, tt), (refl, tt, tt))

abbrev same_guid : PromptChunk → Bytes
same_guid _ = codes "g"

run_turns-lookup_tokens_example :
    (lookup_tokens memory
        (λ k n.
          (memory.get_properties n (write_all memory memory-contract plain same_guid r.1 [])).0)
        plain
        (r.0.buffer.all_written_tokens ++ 9 ∷ [])
        []
      ≡ ok (record {
        cached_blocks = length r.1;
        last_hash = last_hash 0 r.1;
        locations = map (found_at plain) r.1;
      }))
    × All
        (λ chunk.
          (read_async memory
            (encode_tokens_to_blob_name plain chunk.tokens)
            (write_all memory memory-contract plain same_guid r.1 [])).0
          ≡ ok (true, read_back chunk))
        r.1
run_turns-lookup_tokens_example =
    run_turns-lookup_tokens identity (codes "p") (codes "id") (1 ∷ []) 77 (turn ∷ []) memory
      memory-contract plain same_guid [] [] (9 ∷ []) (refl, tt) r-IsFresh (omega arith)
