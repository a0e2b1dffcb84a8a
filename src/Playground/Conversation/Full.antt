-- ===== src/Playground/Conversation/Full.antt =====
-- The chunks that a conversation hands to WriteAsync: each is a full block.
use kv_store_v.Base.{
  ℕ, ◌+◌, ◌≡◌, refl, sym, subst, not, List, [], ◌∷◌, ◌++◌, Option, none, some, All, All-append,
  Bytes, Exn, length, ok, throw, Result, drop, empty, if-cases, ltb,
}
use kv_store_v.Types.{PromptChunk}
use kv_store_v.Playground.Buffer.{
  TokenBufferManager, add_tokens, block_hash, flush_completed_blocks, get_complete_block_count,
  record_write, start_writes,
}
use kv_store_v.Playground.Stats.{OperationStats}
use kv_store_v.Playground.Conversation.{
  Session, Turn, add_new, check_cache, respond, run_turn, run_turns, validate_written,
}
use kv_store_v.Playground.Conversation.Steps.{flushed, new_added}
use kv_store_v.Playground.Conversation.Whole.{found_blocks}
use kv_store_v.Playground.Conversation.Chain.{AllNew, turned, check_cache-kept}
use kv_store_v.Playground.Packing.{IsBlock, IsPacked, add_tokens-IsPacked}

module _ (std_hash : ℕ → ℕ) where
  pub record IsFull (chunk : PromptChunk) : Type 0 where
    pub block : IsBlock chunk.tokens
    pub hashed : chunk.hash ≡ block_hash std_hash chunk.tokens

  -- The chunks of some writes, and the buffer after them.
  abbrev pub AllFull : List PromptChunk → TokenBufferManager → Type 0
  AllFull chunks m = All IsFull chunks × IsPacked m

  append-AllFull :
      (xs ys : List PromptChunk) (m : TokenBufferManager)
      → All IsFull xs
      → AllFull ys m
      → AllFull (xs ++ ys) m
  append-AllFull xs ys m h k = (All-append IsFull xs ys h k.0, k.1)

  module _ (partition_key completion_id block_buffer : Bytes) where
    start_writes-AllFull :
        (blocks : List (List ℕ)) (parent : ℕ) (m : TokenBufferManager)
        → All IsBlock blocks
        → IsPacked m
        → let r = start_writes std_hash partition_key completion_id block_buffer blocks parent m in
          AllFull r.0 r.1
    unfolding start_writes
    start_writes-AllFull [] parent m full packed = (tt, packed)
    start_writes-AllFull (b ∷ bs) parent m full packed =
        let rest =
          start_writes-AllFull bs (block_hash std_hash b)
            (record_write std_hash partition_key completion_id block_buffer b m) full.1
            (record { full = packed.full; partial_block = packed.partial_block }) in
        ((record { block = full.0; hashed = refl }, rest.0), rest.1)

    flush-AllFull :
        (failure : Option Exn) (m : TokenBufferManager)
        → IsPacked m
        → let r = flushed std_hash partition_key completion_id block_buffer failure m in
          AllFull r.1 r.2
    unfolding flush_completed_blocks
    flush-AllFull failure m packed =
        if-cases Good (empty m.completed_blocks) (λ _. (tt, packed)) (λ _. by failure)
      where
        Good : Result (Unit {0}) × List PromptChunk × TokenBufferManager → Type 0
        Good r = AllFull r.1 r.2

        r : List PromptChunk × TokenBufferManager
        r =
            start_writes std_hash partition_key completion_id block_buffer m.completed_blocks
              m.last_written_hash m

        started : AllFull r.0 r.1
        started = start_writes-AllFull m.completed_blocks m.last_written_hash m packed.full packed

        by :
            (f : Option Exn)
            → Good (elim f as (λ x. Result (Unit {0}) × List PromptChunk × TokenBufferManager) [
              | none ↦ (ok tt, r.0, record r.1 { completed_blocks = [] })
              | some e ↦ (throw e, r.0, r.1)
            ])
        by none = (started.0, record { full = tt; partial_block = started.1.partial_block })
        by (some e) = started

    add_new-AllFull :
        (failure : Option Exn) (conversation : List ℕ) (m : TokenBufferManager)
        → IsPacked m
        → let r =
            new_added std_hash partition_key completion_id block_buffer failure conversation m in
          AllFull r.1 r.2
    unfolding add_new
    add_new-AllFull failure conversation m packed =
        if-cases Good (not (ltb m.total_tokens_processed (length conversation))) (λ _. (tt, packed))
          (λ _.
            if-cases Good (ltb 0 (get_complete_block_count filled))
              (λ _. flush-AllFull failure filled filled_packed) (λ _. (tt, filled_packed)))
      where
        Good : Result (Unit {0}) × List PromptChunk × TokenBufferManager → Type 0
        Good r = AllFull r.1 r.2

        filled : TokenBufferManager
        filled = add_tokens (drop m.total_tokens_processed conversation) m

        filled_packed : IsPacked filled
        filled_packed =
            (add_tokens-IsPacked (drop m.total_tokens_processed conversation) m packed).0

    module _ (unique_id : ℕ) where
      respond-AllFull :
          (failure : Option Exn) (s : Session)
          (r : Result (Unit {0}) × List PromptChunk × TokenBufferManager)
          → AllFull r.1 r.2
          → let t =
              respond std_hash partition_key completion_id block_buffer unique_id failure s r in
            AllFull t.1 t.0.buffer
      respond-AllFull failure s (throw e, chunks, m) h = h
      respond-AllFull failure s (ok done, chunks, m) h =
          append-AllFull chunks _ _ h.0 (add_new-AllFull failure _ m h.1)

      abbrev turn_end : Turn → Session → Session × List PromptChunk
      turn_end = turned std_hash partition_key completion_id block_buffer unique_id

      run_turn-AllFull :
          (turn : Turn) (s : Session)
          → found_blocks std_hash turn s ≡ 0
          → IsPacked s.buffer
          → AllFull (turn_end turn s).1 (turn_end turn s).0.buffer
      unfolding run_turn
      run_turn-AllFull turn s nothing packed =
          respond-AllFull turn.response_failure after_prompt _ (
            add_new-AllFull turn.prompt_failure conversation looked
              (subst IsPacked (sym (kept turn s validated.op_stats nothing)) packed))
        where
          kept :
              (turn : Turn) (s : Session) (ops : OperationStats)
              → found_blocks std_hash turn s ≡ 0
              → (check_cache std_hash turn.store (s.conversation ++ turn.prompt) (s.buffer, ops)).0
                ≡ s.buffer
          kept = check_cache-kept std_hash partition_key completion_id block_buffer unique_id

          validated : Session
          validated = validate_written turn.store (record s { turn_number = s.turn_number + 1 })

          conversation : List ℕ
          conversation = s.conversation ++ turn.prompt

          looked : TokenBufferManager
          looked = (check_cache std_hash turn.store conversation (s.buffer, validated.op_stats)).0

          after_prompt : Session
          after_prompt = record validated {
            conversation = conversation;
            op_stats =
                (check_cache std_hash turn.store conversation (s.buffer, validated.op_stats)).1;
          }

      pub run_turns-AllFull :
          (turns : List Turn) (s : Session)
          → AllNew std_hash partition_key completion_id block_buffer unique_id turns s
          → IsPacked s.buffer
          → let r = run_turns std_hash partition_key completion_id block_buffer unique_id turns s in
            AllFull r.1 r.0.buffer
      unfolding run_turns
      run_turns-AllFull [] s new packed = (tt, packed)
      run_turns-AllFull (turn ∷ turns) s new packed =
          let first = run_turn-AllFull turn s new.0 packed in
          append-AllFull (turn_end turn s).1 _ _ first.0
            (run_turns-AllFull turns (turn_end turn s).0 new.1 first.1)
