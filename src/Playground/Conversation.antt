-- ===== src/Playground/Conversation.antt =====
-- runConversation of KVPlayground/src/main.cpp. The store's calls, std::hash and the first exception of the
-- futures of a flush, if any, are arguments of a turn. The write times of OperationStats and the console
-- output are left out; a prompt is its tokens.
pub mod Sync
pub mod Steps
pub mod Whole
pub mod Processed
pub mod Chain
pub mod Full
pub mod Stored
mod Tests
use kv_store_v.Base.{
  ℕ, zero, suc, ◌+◌, ◌-◌, ◌*◌, ◌/◌, Bool, true, false, not, ◌&&◌, List, [], ◌∷◌, ◌++◌, Option, none,
  some, if◌then◌else◌, ltb, leb, ◌==◌, Bytes, codes, empty, length, take, drop, to_string, Result,
  ok, throw, Exn,
}
use kv_store_v.Types.{PromptChunk, LookupResult}
use kv_store_v.Client.Calls.{ServerMetrics}
use kv_store_v.Playground.Buffer.{
  TokenBufferManager, buffer_block_size, add_tokens, get_complete_block_count, block_hash,
  flush_completed_blocks,
}
use kv_store_v.Playground.Response.{generate_synthetic_response}
use kv_store_v.Playground.Stats.{
  OperationStats, no_operations, CacheStats, reset, add_lookup_time, add_lookup_server_metrics,
}
use kv_store_v.Playground.Validation.{KvStore, validate_cache_retrieval}

-- The variables that the loop over the prompts changes.
pub record Session : Type 0 where
  pub buffer : TokenBufferManager
  pub conversation : List ℕ
  pub turn_number : ℕ
  pub stats : CacheStats
  pub op_stats : OperationStats

abbrev pub empty_buffer : TokenBufferManager
empty_buffer = record {
  completed_blocks = [];
  current_block = [];
  total_tokens_written = 0;
  total_tokens_processed = 0;
  last_written_hash = 0;
  written_block_hashes = [];
  all_written_tokens = [];
}

abbrev pub new_session : Session
new_session = record {
  buffer = empty_buffer;
  conversation = [];
  turn_number = 0;
  stats = reset;
  op_stats = no_operations;
}

-- What the outside does in a turn.
pub record Turn : Type 0 where
  pub prompt : List ℕ
  pub store : KvStore
  pub prompt_failure : Option Exn
  pub response_failure : Option Exn

-- Step 1.
abbrev pub validate_written : KvStore → Session → Session
validate_written store s =
    let (valid, stats, op_stats) =
      validate_cache_retrieval store s.buffer.all_written_tokens s.buffer.written_block_hashes
        s.stats s.op_stats in
    if ltb 0 s.buffer.total_tokens_written
    then record s { stats = stats; op_stats = op_stats }
    else s

module _ (std_hash : ℕ → ℕ) where
  -- The hashes of the first `n` full blocks.
  abbrev pub lookup_hashes : ℕ → List ℕ → List ℕ
  unfolding block_hash
  lookup_hashes zero tokens = []
  lookup_hashes (suc n) tokens =
      block_hash std_hash (take buffer_block_size tokens)
      ∷ lookup_hashes n (drop buffer_block_size tokens)

  -- The blocks that are found count as processed and written.
  abbrev pub skip_cached : List ℕ → List ℕ → LookupResult → TokenBufferManager → TokenBufferManager
  skip_cached conversation hashes result m =
      let cached = result.cached_blocks * buffer_block_size in
      let written = cached / buffer_block_size * buffer_block_size in
      if ltb 0 cached
      then record m {
        total_tokens_processed = cached;
        total_tokens_written = written;
        all_written_tokens = m.all_written_tokens ++ take written conversation;
        written_block_hashes = m.written_block_hashes ++ take (written / buffer_block_size) hashes;
        last_written_hash = result.last_hash;
      }
      else m

  -- Step 3, with the blocks that the lookup finds.
  unfoldable pub check_cache :
      KvStore → List ℕ → TokenBufferManager × OperationStats → TokenBufferManager × OperationStats
  check_cache store conversation (m, op_stats) =
      let hashes = lookup_hashes (length conversation / buffer_block_size) conversation in
      let (result, metrics) = store.lookup conversation hashes in
      if m.total_tokens_written == 0 && leb buffer_block_size (length conversation)
      then (
        skip_cached conversation hashes result m,
        add_lookup_server_metrics metrics (add_lookup_time metrics.client_e2e_us op_stats),
      )
      else (m, op_stats)

  module _ (partition_key completion_id block_buffer : Bytes) where
    -- Steps 4 and 6: the tokens that are not processed yet go into the buffer, and full blocks are flushed.
    unfoldable pub add_new :
        Option Exn
        → List ℕ
        → TokenBufferManager
        → Result (Unit {0}) × List PromptChunk × TokenBufferManager
    add_new failure conversation m =
        let filled = add_tokens (drop m.total_tokens_processed conversation) m in
        if not (ltb m.total_tokens_processed (length conversation))
        then (ok tt, [], m)
        else if ltb 0 (get_complete_block_count filled)
        then flush_completed_blocks std_hash partition_key completion_id block_buffer failure filled
        else (ok tt, [], filled)

    -- The end of a turn; an exception is caught there.
    abbrev pub end_turn :
        Session
        → List PromptChunk
        → Result (Unit {0}) × List PromptChunk × TokenBufferManager
        → Session × List PromptChunk
    end_turn s written (outcome, chunks, m) = (record s { buffer = m }, written ++ chunks)

    -- Steps 5 and 6, unless step 4 threw.
    abbrev pub respond :
        ℕ
        → Option Exn
        → Session
        → Result (Unit {0}) × List PromptChunk × TokenBufferManager
        → Session × List PromptChunk
    respond unique_id failure s (throw e, chunks, m) = (record s { buffer = m }, chunks)
    respond unique_id failure s (ok done, chunks, m) =
        let conversation =
          s.conversation ++ generate_synthetic_response unique_id 0 s.turn_number 50 in
        end_turn (record s { conversation = conversation }) chunks (add_new failure conversation m)

    -- A turn: the session and the chunks whose writes were started.
    unfoldable pub run_turn : ℕ → Turn → Session → Session × List PromptChunk
    run_turn unique_id turn s =
        let validated =
          validate_written turn.store (record s { turn_number = s.turn_number + 1 }) in
        let conversation = s.conversation ++ turn.prompt in
        let (m, op_stats) = check_cache turn.store conversation (s.buffer, validated.op_stats) in
        respond unique_id turn.response_failure
          (record validated { conversation = conversation; op_stats = op_stats })
          (add_new turn.prompt_failure conversation m)

    unfoldable pub run_turns : ℕ → List Turn → Session → Session × List PromptChunk
    run_turns unique_id [] s = (s, [])
    run_turns unique_id (turn ∷ turns) s =
        let (s', chunks) = run_turn unique_id turn s in
        let (s'', rest) = run_turns unique_id turns s' in (s'', chunks ++ rest)

-- The status, the session at the end and the chunks whose writes were started. Initialize returns true.
unfoldable pub run_conversation :
    (ℕ → ℕ) → Bytes → ℕ → ℕ → List Turn → ℕ × Session × List PromptChunk
run_conversation std_hash block_buffer unique_id run_id [] = (1, new_session, [])
run_conversation std_hash block_buffer unique_id run_id (turn ∷ turns) =
    let (s, chunks) =
      run_turns std_hash (codes "playground_session_run" ++ to_string unique_id) (to_string run_id)
        block_buffer unique_id (turn ∷ turns) new_session in
    (0, s, chunks)
