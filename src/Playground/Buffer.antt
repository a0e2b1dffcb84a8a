-- ===== src/Playground/Buffer.antt =====
-- TokenBufferManager of KVPlayground/src/main.cpp: tokens are cut into blocks of 128, and full blocks are
-- written to the store as a chain. std::hash of a token and the outcome of the writes are arguments.
-- Console output and statistics are left out.
use kv_store_v.Base.{
  ℕ, ◌+◌, ◌*◌, ◌%◌, List, [], ◌∷◌, ◌++◌, Option, none, some, if◌then◌else◌, ltb, Bytes, empty,
  length, word, Result, ok, throw, Exn,
}
use kv_store_v.Types.{PromptChunk}

abbrev pub buffer_block_size : ℕ
buffer_block_size = 128

pub record TokenBufferManager : Type 0 where
  pub completed_blocks : List (List ℕ)
  pub current_block : List ℕ
  pub total_tokens_written : ℕ
  pub total_tokens_processed : ℕ
  pub last_written_hash : ℕ
  pub written_block_hashes : List ℕ
  pub all_written_tokens : List ℕ

-- One round of addTokens.
unfoldable pub add_token : ℕ → TokenBufferManager → TokenBufferManager
add_token token m =
    let block = m.current_block ++ token ∷ [] in
    if ltb (length block) buffer_block_size
    then record m { current_block = block; total_tokens_processed = m.total_tokens_processed + 1 }
    else record m {
      completed_blocks = m.completed_blocks ++ block ∷ [];
      current_block = [];
      total_tokens_processed = m.total_tokens_processed + 1;
    }

unfoldable pub add_tokens : List ℕ → TokenBufferManager → TokenBufferManager
add_tokens [] m = m
add_tokens (token ∷ tokens) m = add_tokens tokens (add_token token m)

unfoldable pub get_complete_block_count : TokenBufferManager → ℕ
get_complete_block_count m = length m.completed_blocks

unfoldable pub get_total_tokens : TokenBufferManager → ℕ
get_total_tokens m = length m.completed_blocks * buffer_block_size + length m.current_block

module _ (std_hash : ℕ → ℕ) where
  -- The loop over the block's tokens, from `combined` on.
  unfoldable pub combine : ℕ → List ℕ → ℕ
  combine combined [] = combined
  combine combined (token ∷ tokens) = combine ((combined * 31 + std_hash token) % word) tokens

  unfoldable pub block_hash : List ℕ → ℕ
  unfolding combine
  block_hash block = combine 0 block

  module _ (partition_key completion_id buffer : Bytes) where
    abbrev pub make_chunk : ℕ → List ℕ → PromptChunk
    make_chunk parent_hash block = record {
      hash = block_hash block;
      partition_key = partition_key;
      parent_hash = parent_hash;
      buffer = buffer;
      buffer_size = length buffer;
      tokens = block;
      completion_id = completion_id;
    }

    -- The bookkeeping of a round, done when the write is started.
    abbrev pub record_write : List ℕ → TokenBufferManager → TokenBufferManager
    record_write block m = record m {
      written_block_hashes = m.written_block_hashes ++ block_hash block ∷ [];
      all_written_tokens = m.all_written_tokens ++ block;
      last_written_hash = block_hash block;
      total_tokens_written = m.total_tokens_written + buffer_block_size;
    }

    -- The loop over the blocks: the chunks that WriteAsync is called with, in order.
    unfoldable pub start_writes :
        List (List ℕ) → ℕ → TokenBufferManager → List PromptChunk × TokenBufferManager
    start_writes [] current_parent_hash m = ([], m)
    start_writes (block ∷ blocks) current_parent_hash m =
        let (chunks, m') = start_writes blocks (block_hash block) (record_write block m) in
        (make_chunk current_parent_hash block ∷ chunks, m')

    -- `failure` is the first exception of the futures, if any. The blocks are kept then, and it is rethrown.
    unfoldable pub flush_completed_blocks :
        Option Exn → TokenBufferManager → Result (Unit {0}) × List PromptChunk × TokenBufferManager
    flush_completed_blocks failure m =
        let (chunks, m') = start_writes m.completed_blocks m.last_written_hash m in
        if empty m.completed_blocks then (ok tt, [], m) else elim failure [
          | none ↦ (ok tt, chunks, record m' { completed_blocks = [] })
          | some e ↦ (throw e, chunks, m')
        ]
