-- ===== src/Playground/Validation/Intact.antt =====
-- When a validation succeeds, stated without the program's loops and tests.
use kv_store_v.Base.{
  ℕ, zero, suc, ◌+◌, ◌*◌, ◌%◌, ◌^◌, ◌≡◌, ◌≢◌, ◌↔◌, ◌⊎◌, inl, inr, refl, sym, ap, ◌∙◌, true, List,
  [], ◌∷◌, map, some, get_elem?, ==_iff, empty, empty_iff, length, arith, Bool-cases, subst,
}
use kv_store_v.Types.{BlockLocation, LookupResult}
use kv_store_v.Client.Calls.{ReadResult}
use kv_store_v.Playground.Buffer.{buffer_block_size}
use kv_store_v.Playground.Stats.{OperationStats, CacheStats}
use kv_store_v.Playground.Validation.{KvStore, token_at, tokens_match, validate_cache_retrieval}
use kv_store_v.Playground.Validation.Outcome.{
  is_intact, all_intact, is_retrieved, validate-is_retrieved,
}

module _ (behind : ℕ → ℕ) (expected : List ℕ) where
  -- Every token is the expected one at its index, counted from `start`.
  abbrev pub Agrees : ℕ → List ℕ → Type 0
  Agrees start tokens =
      (j token : ℕ) → get_elem? tokens j ≡ some token → token ≡ token_at behind expected (start + j)

  -- The result is a success, and its chunk has a buffer and tokens that agree.
  abbrev pub IsIntact : ℕ → ReadResult → Type 0
  IsIntact start (success, chunk, metrics) =
      (success ≡ true) × (chunk.buffer_size ≢ 0) × Agrees start chunk.tokens

  -- Result j stands for block `i + j`.
  abbrev pub AllIntact : ℕ → List ReadResult → Type 0
  AllIntact i results =
      (j : ℕ) (r : ReadResult)
      → get_elem? results j ≡ some r
      → IsIntact ((i + j) * buffer_block_size) r

  tokens_match-Agrees :
      (n : ℕ) (tokens : List ℕ) → tokens_match behind expected n tokens ≡ true → Agrees n tokens
  unfolding tokens_match
  tokens_match-Agrees n [] h j token e = cc
  tokens_match-Agrees n (first ∷ tokens) h zero token e =
      sym (some_injective e) ∙ (equal_first ∙ ap (token_at behind expected) (omega arith))
    where
      equal_first : first ≡ token_at behind expected n
      equal_first = ground (arith, h)

      some_injective : {a b : ℕ} → some a ≡ some b → a ≡ b
      some_injective e = cc
  tokens_match-Agrees n (first ∷ tokens) h (suc j) token e =
      tokens_match-Agrees (n + 1) tokens (ground (arith, h)) j token e
      ∙ ap (token_at behind expected) (omega arith)

  Agrees-tokens_match :
      (n : ℕ) (tokens : List ℕ) → Agrees n tokens → tokens_match behind expected n tokens ≡ true
  unfolding tokens_match
  Agrees-tokens_match n [] h = refl
  Agrees-tokens_match n (first ∷ tokens) h =
      rw
        ((==_iff first (token_at behind expected n)).1
          (h 0 first refl ∙ ap (token_at behind expected) (omega arith)))
        (Agrees-tokens_match (n + 1) tokens
          (λ j token e. h (suc j) token e ∙ ap (token_at behind expected) (omega arith)))

  is_intact_iff :
      (start : ℕ) (r : ReadResult) → (is_intact behind expected start r ≡ true) ↔ IsIntact start r
  is_intact_iff start (success, chunk, metrics) = (
    λ h. (
      ground (arith, h),
      ground (arith, h),
      tokens_match-Agrees start chunk.tokens (ground (arith, h)),
    ),
    λ h. ground (arith, h.0, h.1, Agrees-tokens_match start chunk.tokens h.2),
  )

  all_intact-AllIntact :
      (i : ℕ) (results : List ReadResult)
      → all_intact behind expected i results ≡ true
      → AllIntact i results
  all_intact-AllIntact i [] h j r e = cc
  all_intact-AllIntact i (first ∷ results) h zero r e =
      subst (IsIntact ((i + 0) * buffer_block_size)) (some_injective e) (
        subst (λ (n : ℕ). IsIntact n first) (omega arith)
          ((is_intact_iff (i * buffer_block_size) first).0 (ground (arith, h))))
    where
      some_injective : {a b : ReadResult} → some a ≡ some b → a ≡ b
      some_injective e = cc
  all_intact-AllIntact i (first ∷ results) h (suc j) r e =
      subst (λ (n : ℕ). IsIntact n r) (omega arith)
        (all_intact-AllIntact (suc i) results (ground (arith, h)) j r e)

  AllIntact-all_intact :
      (i : ℕ) (results : List ReadResult)
      → AllIntact i results
      → all_intact behind expected i results ≡ true
  AllIntact-all_intact i [] h = refl
  AllIntact-all_intact i (first ∷ results) h =
      rw
        ((is_intact_iff (i * buffer_block_size) first).1
          (subst (λ (n : ℕ). IsIntact n first) (omega arith) (h 0 first refl)))
        (AllIntact-all_intact (suc i) results
          (λ j r e. subst (λ (n : ℕ). IsIntact n r) (omega arith) (h (suc j) r e)))

-- The lookup finds some blocks, 128 tokens for each are as many as the expected ones as 32-bit numbers, and
-- all results of the streaming read are intact.
pub record IsRetrieved (store : KvStore) (expected : List ℕ) (result : LookupResult) : Type 0 where
  pub found : result.cached_blocks ≢ 0
  pub whole : result.cached_blocks * buffer_block_size % 2 ^ 32 ≡ length expected % 2 ^ 32
  pub intact :
      AllIntact store.behind expected 0
        (store.streaming_read (map (λ (l : BlockLocation). l.location) result.locations))

is_retrieved_iff :
    (store : KvStore) (expected : List ℕ) (result : LookupResult)
    → (is_retrieved store expected result ≡ true) ↔ IsRetrieved store expected result
is_retrieved_iff store expected result = (
  λ h. record {
    found = ground (arith, h);
    whole = ground (arith, h);
    intact = all_intact-AllIntact store.behind expected 0 _ (ground (arith, h));
  },
  λ h. ground (arith, h.found, h.whole, AllIntact-all_intact store.behind expected 0 _ h.intact),
)

-- A validation returns true exactly if nothing is expected, or the lookup finds some blocks, 128 tokens for
-- each of them are as many as expected (both as 32-bit numbers), and result j of the streaming read, for every
-- j, is a success with a buffer whose every token is the expected one at its place from index 128 * j on. A
-- place behind the expected tokens counts as what memory holds there.
pub validate_iff :
    (store : KvStore) (expected hashes : List ℕ) (s : CacheStats) (ops : OperationStats)
    → ((validate_cache_retrieval store expected hashes s ops).0 ≡ true)
      ↔ ((expected ≡ []) ⊎ IsRetrieved store expected (store.lookup expected hashes).0)
validate_iff store expected hashes s ops = (to, from)
  where
    result : LookupResult
    result = (store.lookup expected hashes).0

    to :
        (validate_cache_retrieval store expected hashes s ops).0 ≡ true
        → (expected ≡ []) ⊎ IsRetrieved store expected result
    to h = elim (Bool-cases (empty expected)) [
      | inl e ↦ inl ((empty_iff expected).0 e)
      | inr e ↦ inr (
          (is_retrieved_iff store expected result).0
            (ground (arith, validate-is_retrieved store expected hashes s ops, h, e)))
    ]

    from :
        (expected ≡ []) ⊎ IsRetrieved store expected result
        → (validate_cache_retrieval store expected hashes s ops).0 ≡ true
    from (inl e) =
        validate-is_retrieved store expected hashes s ops ∙ rw ((empty_iff expected).1 e) refl
    from (inr h) = ground (
      arith,
      validate-is_retrieved store expected hashes s ops,
      (is_retrieved_iff store expected result).1 h,
    )
