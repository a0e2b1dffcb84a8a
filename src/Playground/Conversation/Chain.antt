-- ===== src/Playground/Conversation/Chain.antt =====
-- The chunks that a conversation writes: one chain over all turns, which carries the written tokens.
use kv_store_v.Base.{
  ℕ, refl, sym, ap, subst, [], ◌∷◌, map, none, some, empty, append-nil, append_assoc, ◌+◌, ◌*◌, ◌/◌,
  ◌≡◌, ◌∙◌, inl, inr, Bool, not, ◌&&◌, List, ◌++◌, Option, if-cases, Bool-cases, ltb, leb, ◌==◌,
  arith, Bytes, length, drop, Result, ok, throw, Exn,
}
use kv_store_v.Types.{PromptChunk, LookupResult}
use kv_store_v.Playground.Buffer.{
  TokenBufferManager, buffer_block_size, add_tokens, get_complete_block_count, record_write,
  start_writes, flush_completed_blocks,
}
use kv_store_v.Playground.Stats.{OperationStats}
use kv_store_v.Playground.Conversation.{
  Session, Turn, validate_written, respond, check_cache, lookup_hashes, add_new, run_turn,
  run_turns,
}
use kv_store_v.Playground.Conversation.Steps.{flushed, new_added}
use kv_store_v.Playground.Conversation.Sync.{add_tokens-IsAdded}
use kv_store_v.Playground.Conversation.Whole.{found_blocks}
use kv_store_v.Playground.Packing.{concat}

-- Each chunk's parent hash is the hash of the chunk before it, from `parent` to `last`.
abbrev pub IsChained : ℕ → List PromptChunk → ℕ → Type 0
IsChained parent [] last = parent ≡ last
IsChained parent (c ∷ cs) last = (c.parent_hash ≡ parent) × IsChained c.hash cs last

IsChained-append :
    (p m q : ℕ) (xs ys : List PromptChunk)
    → IsChained p xs m
    → IsChained m ys q
    → IsChained p (xs ++ ys) q
IsChained-append p m q [] ys h k = rw h k
IsChained-append p m q (c ∷ xs) ys h k = (h.0, IsChained-append c.hash m q xs ys h.1 k)

abbrev pub tokens_of : List PromptChunk → List ℕ
tokens_of chunks = concat (map (λ c. c.tokens) chunks)

tokens_of-append : (xs ys : List PromptChunk) → tokens_of (xs ++ ys) ≡ tokens_of xs ++ tokens_of ys
tokens_of-append [] ys = refl
tokens_of-append (c ∷ xs) ys =
    ap (λ (t : List ℕ). c.tokens ++ t) (tokens_of-append xs ys)
    ∙ sym (append_assoc c.tokens (tokens_of xs) (tokens_of ys))

-- The chunks whose writes were started between two states of the buffer: a chain from the last written hash
-- to the new one, and their tokens are those that were recorded as written.
pub record IsStarted (m : TokenBufferManager) (chunks : List PromptChunk) (m' : TokenBufferManager)
    : Type 0 where
  pub chained : IsChained m.last_written_hash chunks m'.last_written_hash
  pub recorded : m'.all_written_tokens ≡ m.all_written_tokens ++ tokens_of chunks

nothing-IsStarted :
    (m m' : TokenBufferManager)
    → m'.last_written_hash ≡ m.last_written_hash
    → m'.all_written_tokens ≡ m.all_written_tokens
    → IsStarted m [] m'
nothing-IsStarted m m' l a = record {
  chained = sym l;
  recorded = a ∙ sym (append-nil m.all_written_tokens);
}

IsStarted-trans :
    {m m' m'' : TokenBufferManager} {xs ys : List PromptChunk}
    → IsStarted m xs m'
    → IsStarted m' ys m''
    → IsStarted m (xs ++ ys) m''
IsStarted-trans {m} {m'} {m''} {xs} {ys} h k = record {
  chained = IsChained-append _ _ _ xs ys h.chained k.chained;
  recorded =
      k.recorded
      ∙ (ap (λ (t : List ℕ). t ++ tokens_of ys) h.recorded
          ∙ (append_assoc m.all_written_tokens (tokens_of xs) (tokens_of ys)
              ∙ ap (λ (t : List ℕ). m.all_written_tokens ++ t) (sym (tokens_of-append xs ys))));
}

module _ (std_hash : ℕ → ℕ) (partition_key completion_id block_buffer : Bytes) where
  start_writes-IsStarted :
      (blocks : List (List ℕ)) (m : TokenBufferManager)
      → let r =
          start_writes std_hash partition_key completion_id block_buffer blocks m.last_written_hash
            m in
        IsStarted m r.0 r.1
  unfolding start_writes
  start_writes-IsStarted [] m = nothing-IsStarted m m refl refl
  start_writes-IsStarted (b ∷ bs) m =
      let rest =
        start_writes-IsStarted bs
          (record_write std_hash partition_key completion_id block_buffer b m) in
      record {
        chained = (refl, rest.chained);
        recorded = rest.recorded ∙ append_assoc m.all_written_tokens b _;
      }

  flush-IsStarted :
      (failure : Option Exn) (m : TokenBufferManager)
      → let r = flushed std_hash partition_key completion_id block_buffer failure m in
        IsStarted m r.1 r.2
  unfolding flush_completed_blocks
  flush-IsStarted failure m =
      if-cases Good (empty m.completed_blocks) (λ _. nothing-IsStarted m m refl refl)
        (λ _. by failure)
    where
      Good : Result (Unit {0}) × List PromptChunk × TokenBufferManager → Type 0
      Good r = IsStarted m r.1 r.2

      r : List PromptChunk × TokenBufferManager
      r =
          start_writes std_hash partition_key completion_id block_buffer m.completed_blocks
            m.last_written_hash m

      started : IsStarted m r.0 r.1
      started = start_writes-IsStarted m.completed_blocks m

      by :
          (f : Option Exn)
          → Good (elim f as (λ x. Result (Unit {0}) × List PromptChunk × TokenBufferManager) [
            | none ↦ (ok tt, r.0, record r.1 { completed_blocks = [] })
            | some e ↦ (throw e, r.0, r.1)
          ])
      by none = record { chained = started.chained; recorded = started.recorded }
      by (some e) = started

  add_new-IsStarted :
      (failure : Option Exn) (conversation : List ℕ) (m : TokenBufferManager)
      → let r =
          new_added std_hash partition_key completion_id block_buffer failure conversation m in
        IsStarted m r.1 r.2
  unfolding add_new
  add_new-IsStarted failure conversation m =
      if-cases Good (not (ltb m.total_tokens_processed (length conversation)))
        (λ _. nothing-IsStarted m m refl refl)
        (λ _.
          if-cases Good (ltb 0 (get_complete_block_count filled))
            (λ _. IsStarted-trans same (flush-IsStarted failure filled)) (λ _. same))
    where
      Good : Result (Unit {0}) × List PromptChunk × TokenBufferManager → Type 0
      Good r = IsStarted m r.1 r.2

      filled : TokenBufferManager
      filled = add_tokens (drop m.total_tokens_processed conversation) m

      same : IsStarted m [] filled
      same =
          let added = add_tokens-IsAdded (drop m.total_tokens_processed conversation) m in
          nothing-IsStarted m filled added.last_kept added.tokens_kept

  module _ (unique_id : ℕ) where
    abbrev pub turned : Turn → Session → Session × List PromptChunk
    turned turn s = run_turn std_hash partition_key completion_id block_buffer unique_id turn s

    respond-IsStarted :
        (failure : Option Exn) (m : TokenBufferManager) (s : Session)
        (r : Result (Unit {0}) × List PromptChunk × TokenBufferManager)
        → IsStarted m r.1 r.2
        → let t = respond std_hash partition_key completion_id block_buffer unique_id failure s r in
          IsStarted m t.1 t.0.buffer
    respond-IsStarted failure m s (throw e, chunks, m') h = h
    respond-IsStarted failure m s (ok done, chunks, m') h =
        IsStarted-trans h (add_new-IsStarted failure _ m')

    pub check_cache-kept :
        (turn : Turn) (s : Session) (ops : OperationStats)
        → found_blocks std_hash turn s ≡ 0
        → (check_cache std_hash turn.store (s.conversation ++ turn.prompt) (s.buffer, ops)).0
          ≡ s.buffer
    unfolding check_cache
    check_cache-kept turn s ops nothing = elim (Bool-cases looks) [
      | inl looked ↦ rw looked (
          if-cases (λ (m : TokenBufferManager). m ≡ s.buffer)
            (ltb 0 (result.cached_blocks * buffer_block_size))
            (λ found. absurd (ground (arith, found, rw looked at nothing))) (λ _. refl))
      | inr unlooked ↦ rw unlooked refl
    ]
      where
        looks : Bool
        looks =
            s.buffer.total_tokens_written == 0
            && leb buffer_block_size (length (s.conversation ++ turn.prompt))

        result : LookupResult
        result =
            (turn.store.lookup (s.conversation ++ turn.prompt) (
              lookup_hashes std_hash (length (s.conversation ++ turn.prompt) / buffer_block_size)
                (s.conversation ++ turn.prompt))).0

    -- No lookup of step 3 finds a block.
    abbrev pub AllNew : List Turn → Session → Type 0
    AllNew [] s = Unit
    AllNew (turn ∷ turns) s = (found_blocks std_hash turn s ≡ 0) × AllNew turns (turned turn s).0

    run_turn-IsStarted :
        (turn : Turn) (s : Session)
        → found_blocks std_hash turn s ≡ 0
        → IsStarted s.buffer (turned turn s).1 (turned turn s).0.buffer
    unfolding run_turn
    run_turn-IsStarted turn s nothing =
        respond-IsStarted turn.response_failure s.buffer after_prompt _ (
          subst (λ (m : TokenBufferManager). IsStarted m (added looked).1 (added looked).2)
            (check_cache-kept turn s validated.op_stats nothing)
            (add_new-IsStarted turn.prompt_failure conversation looked))
      where
        validated : Session
        validated = validate_written turn.store (record s { turn_number = s.turn_number + 1 })

        conversation : List ℕ
        conversation = s.conversation ++ turn.prompt

        looked : TokenBufferManager
        looked = (check_cache std_hash turn.store conversation (s.buffer, validated.op_stats)).0

        added : TokenBufferManager → Result (Unit {0}) × List PromptChunk × TokenBufferManager
        added m =
            new_added std_hash partition_key completion_id block_buffer turn.prompt_failure
              conversation m

        after_prompt : Session
        after_prompt = record validated {
          conversation = conversation;
          op_stats =
              (check_cache std_hash turn.store conversation (s.buffer, validated.op_stats)).1;
        }

    -- Over any turns, with whatever writes failing, if the first lookup finds no cached block: the chunks whose
    -- writes were started form one chain across the turns and flushes, from the last written hash before to
    -- the last one after, and their tokens are exactly those that were recorded as written, in order.
    pub run_turns-IsStarted :
        (turns : List Turn) (s : Session)
        → AllNew turns s
        → let r = run_turns std_hash partition_key completion_id block_buffer unique_id turns s in
          IsStarted s.buffer r.1 r.0.buffer
    unfolding run_turns
    run_turns-IsStarted [] s new = nothing-IsStarted s.buffer s.buffer refl refl
    run_turns-IsStarted (turn ∷ turns) s new =
        IsStarted-trans (run_turn-IsStarted turn s new.0)
          (run_turns-IsStarted turns (turned turn s).0 new.1)
