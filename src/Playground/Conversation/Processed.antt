-- ===== src/Playground/Conversation/Processed.antt =====
-- No token is left unprocessed by a turn, or added twice by the next, even if writes fail.
use kv_store_v.Base.{
  ℕ, ◌+◌, ◌*◌, ◌/◌, ◌≤◌, ◌≡◌, ◌∙◌, inl, inr, Bool, not, ◌&&◌, List, ◌++◌, Option, if-cases,
  Bool-cases, ltb, leb, ◌==◌, arith, Bytes, length, length-append, drop, length-drop, Result, ok,
  throw, Exn,
}
use kv_store_v.Types.{PromptChunk, LookupResult}
use kv_store_v.Playground.Buffer.{
  TokenBufferManager, buffer_block_size, add_tokens, get_complete_block_count,
}
use kv_store_v.Playground.Response.{generate_synthetic_response}
use kv_store_v.Playground.Stats.{OperationStats}
use kv_store_v.Playground.Conversation.{
  Session, Turn, validate_written, respond, check_cache, lookup_hashes, add_new, run_turn,
}
use kv_store_v.Playground.Conversation.Steps.{flush-kept, new_added}
use kv_store_v.Playground.Conversation.Sync.{add_tokens-IsAdded}
use kv_store_v.Playground.Conversation.Whole.{found_blocks}

module _ (std_hash : ℕ → ℕ) (partition_key completion_id block_buffer : Bytes) where
  add_new-processed :
      (failure : Option Exn) (conversation : List ℕ) (m : TokenBufferManager)
      → m.total_tokens_processed ≤ length conversation
      → (new_added std_hash partition_key completion_id block_buffer failure conversation
          m).2.total_tokens_processed
        ≡ length conversation
  unfolding add_new
  add_new-processed failure conversation m h =
      if-cases Done (not (ltb m.total_tokens_processed (length conversation)))
        (λ all. ground (arith, all, h))
        (λ _.
          if-cases Done (ltb 0 (get_complete_block_count filled))
            (λ _.
              (flush-kept std_hash partition_key completion_id block_buffer failure filled).1
              ∙ filled-processed)
            (λ _. filled-processed))
    where
      Done : Result (Unit {0}) × List PromptChunk × TokenBufferManager → Type 0
      Done r = r.2.total_tokens_processed ≡ length conversation

      filled : TokenBufferManager
      filled = add_tokens (drop m.total_tokens_processed conversation) m

      filled-processed : filled.total_tokens_processed ≡ length conversation
      filled-processed = omega (
        arith,
        (add_tokens-IsAdded (drop m.total_tokens_processed conversation) m).processed,
        length-drop m.total_tokens_processed conversation,
        h,
      )

  check_cache-processed :
      (turn : Turn) (s : Session) (ops : OperationStats)
      → found_blocks std_hash turn s * buffer_block_size ≤ length (s.conversation ++ turn.prompt)
      → s.buffer.total_tokens_processed ≤ length s.conversation
      → (check_cache std_hash turn.store
          (s.conversation ++ turn.prompt)
          (s.buffer, ops)).0.total_tokens_processed
        ≤ length (s.conversation ++ turn.prompt)
  unfolding check_cache
  check_cache-processed turn s ops fits h = elim (Bool-cases looks) [
    | inl looked ↦ rw looked (
        if-cases
          (λ (m : TokenBufferManager).
            m.total_tokens_processed ≤ length (s.conversation ++ turn.prompt))
          (ltb 0 (result.cached_blocks * buffer_block_size)) (λ _. rw looked at fits) (λ _. below))
    | inr unlooked ↦ rw unlooked below
  ]
    where
      looks : Bool
      looks =
          s.buffer.total_tokens_written == 0
          && leb buffer_block_size (length (s.conversation ++ turn.prompt))

      result : LookupResult
      result =
          (turn.store.lookup (s.conversation ++ turn.prompt) (
            lookup_hashes std_hash (length (s.conversation ++ turn.prompt) / buffer_block_size)
              (s.conversation ++ turn.prompt))).0

      below : s.buffer.total_tokens_processed ≤ length (s.conversation ++ turn.prompt)
      below = omega (arith, h, length-append s.conversation turn.prompt)

  module _ (unique_id : ℕ) where
    respond-processed :
        (failure : Option Exn) (s : Session)
        (r : Result (Unit {0}) × List PromptChunk × TokenBufferManager)
        → r.2.total_tokens_processed ≡ length s.conversation
        → let t =
            (respond std_hash partition_key completion_id block_buffer unique_id failure s r).0 in
          t.buffer.total_tokens_processed ≡ length t.conversation
    respond-processed failure s (throw e, chunks, m) h = h
    respond-processed failure s (ok done, chunks, m) h = add_new-processed failure _ m (
        omega (
          arith,
          h,
          length-append s.conversation (generate_synthetic_response unique_id 0 s.turn_number 50),
        ))

    -- Whether the writes of a turn succeed or not: if all tokens of the conversation are processed before the turn,
    -- and the first lookup finds at most the conversation's blocks, then they are after it.
    pub run_turn-processed :
        (turn : Turn) (s : Session)
        → found_blocks std_hash turn s * buffer_block_size ≤ length (s.conversation ++ turn.prompt)
        → s.buffer.total_tokens_processed ≡ length s.conversation
        → let t = (run_turn std_hash partition_key completion_id block_buffer unique_id turn s).0 in
          t.buffer.total_tokens_processed ≡ length t.conversation
    unfolding run_turn
    run_turn-processed turn s fits h = respond-processed turn.response_failure after_prompt _ (
        add_new-processed turn.prompt_failure conversation _
          (check_cache-processed turn s validated.op_stats fits (omega (arith, h))))
      where
        validated : Session
        validated = validate_written turn.store (record s { turn_number = s.turn_number + 1 })

        conversation : List ℕ
        conversation = s.conversation ++ turn.prompt

        after_prompt : Session
        after_prompt = record validated {
          conversation = conversation;
          op_stats =
              (check_cache std_hash turn.store conversation (s.buffer, validated.op_stats)).1;
        }
