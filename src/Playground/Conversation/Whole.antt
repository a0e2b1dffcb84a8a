-- ===== src/Playground/Conversation/Whole.antt =====
-- Turns keep the buffer and the conversation in step.
use kv_store_v.Base.{
  ℕ, ◌+◌, ◌*◌, ◌/◌, ◌≤◌, ◌≡◌, refl, ◌⊎◌, inl, inr, Bool, ◌&&◌, List, [], ◌∷◌, ◌++◌, none,
  if◌then◌else◌, if-cases, Bool-cases, ltb, leb, ◌==◌, arith, Bytes, length, length-append, take,
  Result, ok, throw,
}
use kv_store_v.Types.{PromptChunk, LookupResult}
use kv_store_v.Playground.Buffer.{TokenBufferManager, buffer_block_size}
use kv_store_v.Playground.Packing.{buffered}
use kv_store_v.Playground.Response.{generate_synthetic_response}
use kv_store_v.Playground.Stats.{OperationStats}
use kv_store_v.Playground.Conversation.{
  Session, Turn, validate_written, respond, skip_cached, check_cache, lookup_hashes, run_turn,
  run_turns,
}
use kv_store_v.Playground.Conversation.Sync.{
  IsAligned, IsSynced, IsSynced-IsAligned, take-drop, length-take,
}
use kv_store_v.Playground.Conversation.Steps.{add_new-IsSynced}

-- The blocks that step 3 finds, if it looks.
abbrev pub found_blocks : (ℕ → ℕ) → Turn → Session → ℕ
found_blocks std_hash turn s =
    let conversation = s.conversation ++ turn.prompt in
    if s.buffer.total_tokens_written == 0 && leb buffer_block_size (length conversation)
    then (turn.store.lookup conversation (
        lookup_hashes std_hash (length conversation / buffer_block_size)
          conversation)).0.cached_blocks
    else 0

-- The writes of the turn succeed, and step 3 finds at most the blocks of the conversation, and none if tokens
-- wait in the buffer.
pub record IsCalm (std_hash : ℕ → ℕ) (turn : Turn) (s : Session) : Type 0 where
  pub prompt_written : turn.prompt_failure ≡ none
  pub response_written : turn.response_failure ≡ none
  pub no_more :
      found_blocks std_hash turn s * buffer_block_size ≤ length (s.conversation ++ turn.prompt)
  pub unbuffered : (found_blocks std_hash turn s ≡ 0) ⊎ (buffered s.buffer ≡ [])

no_tokens : (xs : List ℕ) → length xs ≡ 0 → xs ≡ []
no_tokens [] e = refl
no_tokens (x ∷ xs) e = absurd (omega (arith, e))

module _ (std_hash : ℕ → ℕ) where
  skip_cached-IsAligned :
      (conversation hashes : List ℕ) (result : LookupResult) (m : TokenBufferManager)
      → IsAligned m conversation
      → m.total_tokens_written ≡ 0
      → result.cached_blocks * buffer_block_size ≤ length conversation
      → (result.cached_blocks ≡ 0) ⊎ (buffered m ≡ [])
      → IsAligned (skip_cached std_hash conversation hashes result m) conversation
  skip_cached-IsAligned conversation hashes result m h none_written fits (inl none_found) =
      if-cases (λ (r : TokenBufferManager). IsAligned r conversation)
        (ltb 0 (result.cached_blocks * buffer_block_size))
        (λ found. absurd (ground (arith, found, none_found))) (λ _. h)
  skip_cached-IsAligned conversation hashes result m h none_written fits (inr nothing_buffered) =
      if-cases (λ (r : TokenBufferManager). IsAligned r conversation)
        (ltb 0 (result.cached_blocks * buffer_block_size))
        (λ found. record {
          packed = record { full = h.packed.full; partial_block = h.packed.partial_block };
          counted = omega (
            arith,
            length-append m.all_written_tokens (take written conversation),
            length-take written conversation (omega arith),
            h.counted,
            none_written,
          );
          bounded = fits;
          aligned =
              rw
                (
                  nothing_buffered,
                  no_tokens m.all_written_tokens (omega (arith, h.counted, none_written)),
                  exact,
                )
                (take-drop cached conversation);
        })
        (λ _. h)
    where
      cached : ℕ
      cached = result.cached_blocks * buffer_block_size

      written : ℕ
      written = cached / buffer_block_size * buffer_block_size

      exact :
          result.cached_blocks * buffer_block_size / buffer_block_size * buffer_block_size
          ≡ result.cached_blocks * buffer_block_size
      exact = omega arith

  check_cache-IsAligned :
      (turn : Turn) (s : Session) (ops : OperationStats)
      → IsCalm std_hash turn s
      → IsSynced s.buffer s.conversation
      → IsAligned
          (check_cache std_hash turn.store (s.conversation ++ turn.prompt) (s.buffer, ops)).0
          (s.conversation ++ turn.prompt)
  unfolding check_cache
  check_cache-IsAligned turn s ops calm h = elim (Bool-cases looks) [
    | inl looked ↦ rw looked (
        skip_cached-IsAligned conversation hashes result s.buffer aligned (ground (arith, looked))
          (rw looked at calm.no_more) (rw looked at calm.unbuffered))
    | inr unlooked ↦ rw unlooked aligned
  ]
    where
      conversation : List ℕ
      conversation = s.conversation ++ turn.prompt

      hashes : List ℕ
      hashes = lookup_hashes std_hash (length conversation / buffer_block_size) conversation

      result : LookupResult
      result = (turn.store.lookup conversation hashes).0

      looks : Bool
      looks = s.buffer.total_tokens_written == 0 && leb buffer_block_size (length conversation)

      aligned : IsAligned s.buffer conversation
      aligned = IsSynced-IsAligned s.buffer s.conversation turn.prompt h

  module _ (partition_key completion_id block_buffer : Bytes) (unique_id : ℕ) where
    respond-IsSynced :
        (s : Session) (r : Result (Unit {0}) × List PromptChunk × TokenBufferManager)
        → (r.0 ≡ ok tt) × IsSynced r.2 s.conversation
        → let t =
            (respond std_hash partition_key completion_id block_buffer unique_id none s r).0 in
          IsSynced t.buffer t.conversation
    respond-IsSynced s (throw e, chunks, m) h = cc
    respond-IsSynced s (ok done, chunks, m) h =
        (add_new-IsSynced std_hash partition_key completion_id block_buffer _ m (
          IsSynced-IsAligned m s.conversation
            (generate_synthetic_response unique_id 0 s.turn_number 50) h.1)).1

    abbrev after_turn : Turn → Session → Session
    after_turn turn s =
        (run_turn std_hash partition_key completion_id block_buffer unique_id turn s).0

    run_turn-IsSynced :
        (turn : Turn) (s : Session)
        → IsCalm std_hash turn s
        → IsSynced s.buffer s.conversation
        → IsSynced (after_turn turn s).buffer (after_turn turn s).conversation
    unfolding run_turn
    run_turn-IsSynced turn s calm h =
        rw (calm.prompt_written, calm.response_written)
          (respond-IsSynced after_prompt _ (
            add_new-IsSynced std_hash partition_key completion_id block_buffer
              (s.conversation ++ turn.prompt) _
              (check_cache-IsAligned turn s validated.op_stats calm h)))
      where
        validated : Session
        validated = validate_written turn.store (record s { turn_number = s.turn_number + 1 })

        conversation : List ℕ
        conversation = s.conversation ++ turn.prompt

        after_prompt : Session
        after_prompt = record validated {
          conversation = conversation;
          op_stats =
              (check_cache std_hash turn.store conversation (s.buffer, validated.op_stats)).1;
        }

    -- Every turn is calm in the session that the turns before it leave.
    abbrev pub AllCalm : List Turn → Session → Type 0
    AllCalm [] s = Unit
    AllCalm (turn ∷ turns) s = IsCalm std_hash turn s × AllCalm turns (after_turn turn s)

    -- If in every turn the writes succeed, and the first lookup finds at most the blocks of the conversation, and
    -- none when tokens wait in the buffer: after the turns, the written tokens followed by the buffered
    -- ones are the whole conversation, in order and each once; all tokens are processed, the written ones
    -- are counted, and the buffer is packed.
    pub run_turns-IsSynced :
        (turns : List Turn) (s : Session)
        → AllCalm turns s
        → IsSynced s.buffer s.conversation
        → let t =
            (run_turns std_hash partition_key completion_id block_buffer unique_id turns s).0 in
          IsSynced t.buffer t.conversation
    unfolding run_turns
    run_turns-IsSynced [] s calm h = h
    run_turns-IsSynced (turn ∷ turns) s calm h =
        run_turns-IsSynced turns (after_turn turn s) calm.1 (run_turn-IsSynced turn s calm.0 h)
