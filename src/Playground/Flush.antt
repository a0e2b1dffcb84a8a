-- ===== src/Playground/Flush.antt =====
-- What flushCompletedBlocks writes, what it records, and what a retry after a failure does.
use kv_store_v.Base.{
  ℕ, ◌+◌, ◌*◌, ◌≡◌, refl, sym, ap, ◌∙◌, List, [], ◌∷◌, ◌++◌, append-nil, append_assoc, Option, none,
  some, arith, map, length, Bytes, Exn, empty, if-cases, true, Result, ok, throw,
}
use kv_store_v.Types.{PromptChunk}
use kv_store_v.Playground.Buffer.{
  TokenBufferManager, buffer_block_size, block_hash, record_write, start_writes,
  flush_completed_blocks,
}
use kv_store_v.Playground.Packing.{concat}

-- One chunk for each block, in order: each holds its block and hash, and its parent hash is the hash of the
-- chunk before it.
abbrev pub IsLinked : (ℕ → ℕ) → ℕ → List (List ℕ) → List PromptChunk → Type 0
IsLinked std_hash parent [] [] = Unit
IsLinked std_hash parent (b ∷ bs) (c ∷ cs) =
    (c.tokens ≡ b)
    × (c.hash ≡ block_hash std_hash b)
    × (c.parent_hash ≡ parent)
    × IsLinked std_hash c.hash bs cs
IsLinked std_hash parent _ _ = ⊥

module _ (std_hash : ℕ → ℕ) (partition_key completion_id buffer : Bytes) where
  -- What a loop over `blocks` leaves behind.
  pub record IsRecorded (parent : ℕ) (blocks : List (List ℕ)) (m : TokenBufferManager)
      (r : List PromptChunk × TokenBufferManager) : Type 0 where
    pub linked : IsLinked std_hash parent blocks r.0
    pub blocks_kept : r.1.completed_blocks ≡ m.completed_blocks
    pub tokens_recorded : r.1.all_written_tokens ≡ m.all_written_tokens ++ concat blocks
    pub hashes_recorded :
        r.1.written_block_hashes ≡ m.written_block_hashes ++ map (block_hash std_hash) blocks
    pub counted :
        r.1.total_tokens_written ≡ m.total_tokens_written + length blocks * buffer_block_size

  start_writes-IsRecorded :
      (blocks : List (List ℕ)) (parent : ℕ) (m : TokenBufferManager)
      → IsRecorded parent blocks m
          (start_writes std_hash partition_key completion_id buffer blocks parent m)
  unfolding start_writes
  start_writes-IsRecorded [] parent m = record {
    linked = tt;
    blocks_kept = refl;
    tokens_recorded = sym (append-nil m.all_written_tokens);
    hashes_recorded = sym (append-nil m.written_block_hashes);
    counted = omega arith;
  }
  start_writes-IsRecorded (b ∷ bs) parent m =
      let r =
        start_writes-IsRecorded bs (block_hash std_hash b)
          (record_write std_hash partition_key completion_id buffer b m) in
      record {
        linked = (refl, refl, refl, r.linked);
        blocks_kept = r.blocks_kept;
        tokens_recorded = r.tokens_recorded ∙ append_assoc m.all_written_tokens b (concat bs);
        hashes_recorded =
            r.hashes_recorded
            ∙ append_assoc m.written_block_hashes (block_hash std_hash b ∷ [])
                (map (block_hash std_hash) bs);
        counted = omega (arith, r.counted);
      }

  -- Whether the writes succeed or not, a flush writes every completed block once and in order, as a chain
  -- that goes on from the last hash of the flush before.
  pub flush_completed_blocks-IsLinked :
      (failure : Option Exn) (m : TokenBufferManager)
      → IsLinked std_hash m.last_written_hash m.completed_blocks
          (flush_completed_blocks std_hash partition_key completion_id buffer failure m).1
  unfolding flush_completed_blocks
  flush_completed_blocks-IsLinked failure m =
      if-cases
        (λ (t : Result (Unit {0}) × List PromptChunk × TokenBufferManager).
          IsLinked std_hash m.last_written_hash m.completed_blocks t.1)
        (empty m.completed_blocks) (nothing m.completed_blocks) (λ _. by_failure failure)
    where
      nothing : (bs : List (List ℕ)) → empty bs ≡ true → IsLinked std_hash m.last_written_hash bs []
      nothing [] h = tt
      nothing (b ∷ bs) h = cc

      r : List PromptChunk × TokenBufferManager
      r =
          start_writes std_hash partition_key completion_id buffer m.completed_blocks
            m.last_written_hash m

      linked : IsLinked std_hash m.last_written_hash m.completed_blocks r.0
      linked = (start_writes-IsRecorded m.completed_blocks m.last_written_hash m).linked

      by_failure :
          (f : Option Exn)
          → IsLinked std_hash m.last_written_hash m.completed_blocks
              (elim f as (λ x. Result (Unit {0}) × List PromptChunk × TokenBufferManager) [
                | none ↦ (ok tt, r.0, record r.1 { completed_blocks = [] })
                | some e ↦ (throw e, r.0, r.1)
              ]).1
      by_failure none = linked
      by_failure (some e) = linked

  -- If all writes succeed, no completed block is left, and exactly the flushed blocks' tokens, hashes and
  -- number of tokens are recorded as written.
  pub flush_completed_blocks-done :
      (m : TokenBufferManager)
      → let r = flush_completed_blocks std_hash partition_key completion_id buffer none m in
        (r.2.completed_blocks ≡ [])
        × (r.2.all_written_tokens ≡ m.all_written_tokens ++ concat m.completed_blocks)
        × (r.2.written_block_hashes
            ≡ m.written_block_hashes ++ map (block_hash std_hash) m.completed_blocks)
        × (r.2.total_tokens_written
            ≡ m.total_tokens_written + length m.completed_blocks * buffer_block_size)
  unfolding flush_completed_blocks
  flush_completed_blocks-done m =
      let r = start_writes-IsRecorded m.completed_blocks m.last_written_hash m in
      ground (
        arith,
        append-nil m.all_written_tokens,
        append-nil m.written_block_hashes,
        r.tokens_recorded,
        r.hashes_recorded,
        r.counted,
      )

  failed_tokens :
      (m : TokenBufferManager) (e : Exn)
      → let failed =
          flush_completed_blocks std_hash partition_key completion_id buffer (some e) m in
        (failed.2.all_written_tokens ≡ m.all_written_tokens ++ concat m.completed_blocks)
        × (failed.2.completed_blocks ≡ m.completed_blocks)
  unfolding flush_completed_blocks
  failed_tokens m e =
      let r = start_writes-IsRecorded m.completed_blocks m.last_written_hash m in
      ground (arith, append-nil m.all_written_tokens, r.tokens_recorded, r.blocks_kept)

  -- If a write fails and the flush is then tried again with success, every flushed block's tokens are recorded
  -- as written twice.
  pub flush_retry :
      (m : TokenBufferManager) (e : Exn)
      → let failed =
          flush_completed_blocks std_hash partition_key completion_id buffer (some e) m in
        (flush_completed_blocks std_hash partition_key completion_id buffer none
          failed.2).2.all_written_tokens
        ≡ m.all_written_tokens ++ (concat m.completed_blocks ++ concat m.completed_blocks)
  flush_retry m e =
      let failed = flush_completed_blocks std_hash partition_key completion_id buffer (some e) m in
      (flush_completed_blocks-done failed.2).1
      ∙ (ap (λ (x : List ℕ). x ++ concat failed.2.completed_blocks) (failed_tokens m e).0
          ∙ (ap
                (λ (x : List (List ℕ)).
                  (m.all_written_tokens ++ concat m.completed_blocks) ++ concat x)
                (failed_tokens m e).1
              ∙ append_assoc m.all_written_tokens (concat m.completed_blocks)
                  (concat m.completed_blocks)))
