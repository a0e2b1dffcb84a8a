-- ===== src/Playground/Tests.antt =====
-- The client program's theorems at concrete inputs.

use kv_store_v.Base.{
  ◌↔◌, ◌⊎◌, equal, lookup, ok, inl, true, Bytes, All, ℕ, zero, suc, ◌≡◌, refl, [], ◌∷◌, ◌++◌, List,
  none, some, map, length, arith, codes, runtime_error,
}
use kv_store_v.Playground.Buffer.{
  TokenBufferManager, start_writes, flush_completed_blocks, get_complete_block_count,
}
use kv_store_v.Types.{PromptChunk, no_blocks, empty_chunk}
use kv_store_v.Client.Calls.{no_metrics}
use kv_store_v.Blob.Name.{encode_tokens_to_blob_name, tokens_bytes}
use kv_store_v.Blob.Memory.{memory, plain, memory-contract}
use kv_store_v.Store.Lookup.{lookup_tokens}
use kv_store_v.Store.Write.Prompt.{IsFresh, last_hash, write_all}
use kv_store_v.Store.Write.Prompt.Found.{found_at}
use kv_store_v.Playground.Stored.{flush_completed_blocks-lookup_tokens}
use kv_store_v.Playground.Stats.{no_operations, reset}
use kv_store_v.Playground.Validation.{KvStore, validate_cache_retrieval}
use kv_store_v.Playground.Validation.Intact.{IsRetrieved, validate_iff}
use kv_store_v.Playground.Validation.Blank.{IsBlank, validate-IsBlank}
use kv_store_v.Playground.Conversation.{Turn, new_session, run_turn, run_turns}
use kv_store_v.Playground.Conversation.Sync.{IsSynced}
use kv_store_v.Playground.Conversation.Whole.{found_blocks, IsCalm, run_turns-IsSynced}
use kv_store_v.Playground.Conversation.Chain.{IsStarted, run_turns-IsStarted}
use kv_store_v.Playground.Conversation.Processed.{run_turn-processed}
use kv_store_v.Playground.Packing.{concat}
use kv_store_v.Playground.Flush.{flush_retry}

abbrev repeat : ℕ → ℕ → List ℕ
repeat zero x = []
repeat (suc n) x = x ∷ repeat n x

-- One full block and one token.
abbrev filled : TokenBufferManager
filled = record {
  completed_blocks = repeat 128 7 ∷ [];
  current_block = 5 ∷ [];
  total_tokens_written = 0;
  total_tokens_processed = 129;
  last_written_hash = 3;
  written_block_hashes = [];
  all_written_tokens = [];
}

abbrev identity : ℕ → ℕ
identity n = n

flush_retry_example :
    let failed =
      flush_completed_blocks identity
        (codes "p")
        (codes "id")
        (1 ∷ [])
        (some (runtime_error []))
        filled in
    (flush_completed_blocks identity
      (codes "p")
      (codes "id")
      (1 ∷ [])
      none
      failed.2).2.all_written_tokens
    ≡ filled.all_written_tokens
      ++ (concat filled.completed_blocks ++ concat filled.completed_blocks)
flush_retry_example =
    flush_retry identity (codes "p") (codes "id") (1 ∷ []) filled (runtime_error [])

-- A store that holds nothing.
abbrev nothing_stored : KvStore
nothing_stored = record {
  lookup = λ tokens hashes. (no_blocks, no_metrics);
  streaming_read = λ locations. [];
  behind = λ n. 0;
}

-- A store that holds one block, and gives it back without its tokens.
abbrev one_stored : KvStore
one_stored = record {
  lookup = λ tokens hashes. (
    record {
      cached_blocks = 1;
      last_hash = 3;
      locations = (record { hash = 3; location = codes "n" }) ∷ [];
    },
    no_metrics,
  );
  streaming_read = λ locations.
      map (λ l. (true, record empty_chunk { buffer = 1 ∷ []; buffer_size = 1 }, no_metrics))
        locations;
  behind = λ n. 0;
}

-- A store that gives back the tokens too.
abbrev with_tokens : KvStore
with_tokens = record one_stored {
  streaming_read = λ locations.
      map
        (λ l. (
          true,
          record empty_chunk { buffer = 1 ∷ []; buffer_size = 1; tokens = repeat 128 7 },
          no_metrics,
        ))
        locations;
}

validate_iff_example :
    ((validate_cache_retrieval with_tokens (repeat 128 7) (3 ∷ []) reset no_operations).0 ≡ true)
    ↔ ((repeat 128 7 ≡ [])
        ⊎ IsRetrieved with_tokens (repeat 128 7) (with_tokens.lookup (repeat 128 7) (3 ∷ [])).0)
validate_iff_example = validate_iff with_tokens (repeat 128 7) (3 ∷ []) reset no_operations

validate-IsBlank_example :
    (validate_cache_retrieval one_stored (repeat 128 7) (3 ∷ []) reset no_operations).0
    ≡ (validate_cache_retrieval one_stored (repeat 128 8) (3 ∷ []) reset no_operations).0
validate-IsBlank_example =
    validate-IsBlank one_stored (repeat 128 7) (repeat 128 8) (3 ∷ []) (3 ∷ []) reset no_operations
      refl refl blank
  where
    blank : (locations : List Bytes) → All IsBlank (one_stored.streaming_read locations)
    blank [] = tt
    blank (l ∷ ls) = (refl, blank ls)

abbrev first_turn : Turn
first_turn = record {
  prompt = repeat 130 7;
  store = nothing_stored;
  prompt_failure = none;
  response_failure = none;
}

calm : IsCalm identity first_turn new_session
calm = record {
  prompt_written = refl;
  response_written = refl;
  no_more = omega arith;
  unbuffered = inl refl;
}

fresh : IsSynced new_session.buffer new_session.conversation
fresh = record {
  packed = record { full = tt; partial_block = omega arith };
  counted = refl;
  processed = refl;
  synced = refl;
}

run_turns-IsSynced_example :
    let t =
      (run_turns identity (codes "p") (codes "id") (1 ∷ []) 77 (first_turn ∷ []) new_session).0 in
    IsSynced t.buffer t.conversation
run_turns-IsSynced_example =
    run_turns-IsSynced identity (codes "p") (codes "id") (1 ∷ []) 77 (first_turn ∷ []) new_session
      (calm, tt) fresh

abbrev failing_turn : Turn
failing_turn = record first_turn { prompt_failure = some (runtime_error []) }

run_turn-processed_example :
    let t = (run_turn identity (codes "p") (codes "id") (1 ∷ []) 77 failing_turn new_session).0 in
    t.buffer.total_tokens_processed ≡ length t.conversation
run_turn-processed_example =
    run_turn-processed identity (codes "p") (codes "id") (1 ∷ []) 77 failing_turn new_session
      (omega arith) refl

nothing :
    found_blocks identity failing_turn
      (run_turn identity (codes "p") (codes "id") (1 ∷ []) 77 first_turn new_session).0
    ≡ 0
nothing = ground arith

run_turns-IsStarted_example :
    let r =
      run_turns identity
        (codes "p")
        (codes "id")
        (1 ∷ [])
        77
        (first_turn ∷ failing_turn ∷ [])
        new_session in
    IsStarted new_session.buffer r.1 r.0.buffer
run_turns-IsStarted_example =
    run_turns-IsStarted identity (codes "p") (codes "id") (1 ∷ []) 77
      (first_turn ∷ failing_turn ∷ []) new_session (refl, (nothing, tt))

abbrev handed_over : List PromptChunk
handed_over = (flush_completed_blocks identity (codes "p") (codes "id") (1 ∷ []) none filled).1

abbrev same_guid : PromptChunk → Bytes
same_guid _ = codes "g"

handed_over-IsFresh : IsFresh memory memory-contract plain [] handed_over
unfolding memory-contract lookup equal encode_tokens_to_blob_name tokens_bytes
    flush_completed_blocks start_writes
handed_over-IsFresh = (refl, tt, tt)

flush_completed_blocks-lookup_tokens_example :
    lookup_tokens memory
      (λ k n.
        (memory.get_properties n
          (write_all memory memory-contract plain same_guid handed_over [])).0)
      plain
      (repeat 128 7 ++ 5 ∷ [])
      []
    ≡ ok (record {
      cached_blocks = get_complete_block_count filled;
      last_hash = last_hash 0 handed_over;
      locations = map (found_at plain) handed_over;
    })
flush_completed_blocks-lookup_tokens_example =
    flush_completed_blocks-lookup_tokens identity memory memory-contract plain (codes "p")
      (codes "id") (1 ∷ []) same_guid none filled [] []
      (record { full = (refl, tt); partial_block = omega arith }) (omega arith) handed_over-IsFresh
