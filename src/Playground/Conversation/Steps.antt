-- ===== src/Playground/Conversation/Steps.antt =====
-- A turn keeps the buffer and the conversation in step, if the writes succeed.
use kv_store_v.Base.{
  ℕ, ◌≡◌, refl, sym, ap, ◌∙◌, not, List, [], ◌∷◌, ◌++◌, Option, none, if-cases, ltb, arith,
  append-nil, append_assoc, Bytes, length, length-append, drop, drop_all, Result, ok, Exn,
}
use kv_store_v.Types.{PromptChunk}
use kv_store_v.Playground.Buffer.{
  TokenBufferManager, add_tokens, get_complete_block_count, block_hash, record_write, start_writes,
  flush_completed_blocks,
}
use kv_store_v.Playground.Packing.{concat, buffered, length-concat}
use kv_store_v.Playground.Flush.{flush_completed_blocks-done}
use kv_store_v.Playground.Conversation.{add_new}
use kv_store_v.Playground.Conversation.Sync.{IsAligned, IsSynced, add_tokens-IsSynced}

module _ (std_hash : ℕ → ℕ) (partition_key completion_id block_buffer : Bytes) where
  start_writes-kept :
      (blocks : List (List ℕ)) (parent : ℕ) (m : TokenBufferManager)
      → let r = start_writes std_hash partition_key completion_id block_buffer blocks parent m in
        (r.1.current_block ≡ m.current_block)
        × (r.1.total_tokens_processed ≡ m.total_tokens_processed)
  unfolding start_writes
  start_writes-kept [] parent m = (refl, refl)
  start_writes-kept (b ∷ bs) parent m =
      start_writes-kept bs (block_hash std_hash b)
        (record_write std_hash partition_key completion_id block_buffer b m)

  abbrev pub flushed :
      Option Exn → TokenBufferManager → Result (Unit {0}) × List PromptChunk × TokenBufferManager
  flushed = flush_completed_blocks std_hash partition_key completion_id block_buffer

  pub flush-kept :
      (failure : Option Exn) (m : TokenBufferManager)
      → ((flushed failure m).2.current_block ≡ m.current_block)
        × ((flushed failure m).2.total_tokens_processed ≡ m.total_tokens_processed)
  unfolding flush_completed_blocks
  flush-kept failure m = ground (arith, start_writes-kept m.completed_blocks m.last_written_hash m)

  flush-returns : (m : TokenBufferManager) → (flushed none m).0 ≡ ok tt
  unfolding flush_completed_blocks
  flush-returns m = ground arith

  flush-IsSynced :
      (m : TokenBufferManager) (conversation : List ℕ)
      → IsSynced m conversation
      → IsSynced (flushed none m).2 conversation
  flush-IsSynced m conversation h =
      let done = flush_completed_blocks-done std_hash partition_key completion_id block_buffer m in
      let kept = flush-kept none m in
      record {
        packed = record { full = rw done.0 tt; partial_block = rw kept.0 h.packed.partial_block };
        counted = omega (
          arith,
          done.3,
          ap (λ (t : List ℕ). length t) done.1,
          length-append m.all_written_tokens (concat m.completed_blocks),
          length-concat m.completed_blocks h.packed.full,
          h.counted,
        );
        processed = kept.1 ∙ h.processed;
        synced =
            rw (done.0, done.1, kept.0)
              (append_assoc m.all_written_tokens (concat m.completed_blocks) m.current_block)
            ∙ h.synced;
      }

  abbrev pub new_added :
      Option Exn
      → List ℕ
      → TokenBufferManager
      → Result (Unit {0}) × List PromptChunk × TokenBufferManager
  new_added = add_new std_hash partition_key completion_id block_buffer

  pub add_new-IsSynced :
      (conversation : List ℕ) (m : TokenBufferManager)
      → IsAligned m conversation
      → ((new_added none conversation m).0 ≡ ok tt)
        × IsSynced (new_added none conversation m).2 conversation
  unfolding add_new
  add_new-IsSynced conversation m h =
      if-cases Good (not (ltb m.total_tokens_processed (length conversation)))
        (λ all. (refl, whole (ground (arith, all, h.bounded))))
        (λ _.
          if-cases Good (ltb 0 (get_complete_block_count filled))
            (λ _. (flush-returns filled, flush-IsSynced filled conversation filled-IsSynced))
            (λ _. (refl, filled-IsSynced)))
    where
      Good : Result (Unit {0}) × List PromptChunk × TokenBufferManager → Type 0
      Good r = (r.0 ≡ ok tt) × IsSynced r.2 conversation

      filled : TokenBufferManager
      filled = add_tokens (drop m.total_tokens_processed conversation) m

      filled-IsSynced : IsSynced filled conversation
      filled-IsSynced = add_tokens-IsSynced m conversation h

      whole : m.total_tokens_processed ≡ length conversation → IsSynced m conversation
      whole e = record {
        packed = h.packed;
        counted = h.counted;
        processed = e;
        synced =
            ap (λ (t : List ℕ). m.all_written_tokens ++ t)
              (sym (append-nil (buffered m))
                ∙ ap (λ (t : List ℕ). buffered m ++ t)
                    (sym (drop_all m.total_tokens_processed conversation (omega (arith, e)))))
            ∙ h.aligned;
      }
