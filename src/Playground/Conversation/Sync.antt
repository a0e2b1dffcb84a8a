-- ===== src/Playground/Conversation/Sync.antt =====
-- The buffer's tokens against the conversation's.
use kv_store_v.Base.{
  ℕ, zero, suc, ◌+◌, ◌≤◌, ◌≡◌, refl, sym, ap, ◌∙◌, List, [], ◌∷◌, ◌++◌, if-cases, ltb, arith,
  append_assoc, length, length-append, take, drop, length-drop, drop-length-append,
}
use kv_store_v.Playground.Buffer.{TokenBufferManager, buffer_block_size, add_token, add_tokens}
use kv_store_v.Playground.Packing.{buffered, IsPacked, add_tokens-IsPacked}

pub take-drop : (n : ℕ) (xs : List ℕ) → take n xs ++ drop n xs ≡ xs
take-drop zero xs = refl
take-drop (suc n) [] = refl
take-drop (suc n) (x ∷ xs) = ap (λ (t : List ℕ). x ∷ t) (take-drop n xs)

pub length-take : (n : ℕ) (xs : List ℕ) → n ≤ length xs → length (take n xs) ≡ n
length-take zero xs h = refl
length-take (suc n) [] h = absurd (omega arith)
length-take (suc n) (x ∷ xs) h = ap suc (length-take n xs (omega arith))

-- The written tokens, the buffered ones and those of the conversation that are not processed yet are the
-- conversation, in order.
pub record IsAligned (m : TokenBufferManager) (conversation : List ℕ) : Type 0 where
  pub packed : IsPacked m
  pub counted : m.total_tokens_written ≡ length m.all_written_tokens
  pub bounded : m.total_tokens_processed ≤ length conversation
  pub aligned :
      m.all_written_tokens ++ (buffered m ++ drop m.total_tokens_processed conversation)
      ≡ conversation

-- No token of the conversation is left to process.
pub record IsSynced (m : TokenBufferManager) (conversation : List ℕ) : Type 0 where
  pub packed : IsPacked m
  pub counted : m.total_tokens_written ≡ length m.all_written_tokens
  pub processed : m.total_tokens_processed ≡ length conversation
  pub synced : m.all_written_tokens ++ buffered m ≡ conversation

pub IsSynced-IsAligned :
    (m : TokenBufferManager) (conversation more : List ℕ)
    → IsSynced m conversation
    → IsAligned m (conversation ++ more)
IsSynced-IsAligned m conversation more h = record {
  packed = h.packed;
  counted = h.counted;
  bounded = omega (arith, h.processed, length-append conversation more);
  aligned =
      ap (λ (n : ℕ). m.all_written_tokens ++ (buffered m ++ drop n (conversation ++ more)))
        h.processed
      ∙ (ap (λ (t : List ℕ). m.all_written_tokens ++ (buffered m ++ t))
            (drop-length-append conversation more)
          ∙ (sym (append_assoc m.all_written_tokens (buffered m) more)
              ∙ ap (λ (t : List ℕ). t ++ more) h.synced));
}

-- What adding tokens leaves alone, and what it counts.
pub record IsAdded (tokens : List ℕ) (m m' : TokenBufferManager) : Type 0 where
  pub written_kept : m'.total_tokens_written ≡ m.total_tokens_written
  pub tokens_kept : m'.all_written_tokens ≡ m.all_written_tokens
  pub processed : m'.total_tokens_processed ≡ m.total_tokens_processed + length tokens
  pub last_kept : m'.last_written_hash ≡ m.last_written_hash
  pub hashes_kept : m'.written_block_hashes ≡ m.written_block_hashes

add_token-IsAdded : (t : ℕ) (m : TokenBufferManager) → IsAdded (t ∷ []) m (add_token t m)
unfolding add_token
add_token-IsAdded t m =
    if-cases (IsAdded (t ∷ []) m) (ltb (length (m.current_block ++ t ∷ [])) buffer_block_size)
      (λ short. record {
        written_kept = refl;
        tokens_kept = refl;
        processed = refl;
        last_kept = refl;
        hashes_kept = refl;
      })
      (λ long. record {
        written_kept = refl;
        tokens_kept = refl;
        processed = refl;
        last_kept = refl;
        hashes_kept = refl;
      })

pub add_tokens-IsAdded :
    (tokens : List ℕ) (m : TokenBufferManager) → IsAdded tokens m (add_tokens tokens m)
unfolding add_tokens
add_tokens-IsAdded [] m = record {
  written_kept = refl;
  tokens_kept = refl;
  processed = omega arith;
  last_kept = refl;
  hashes_kept = refl;
}
add_tokens-IsAdded (t ∷ tokens) m =
    let first = add_token-IsAdded t m in
    let rest = add_tokens-IsAdded tokens (add_token t m) in
    record {
      written_kept = rest.written_kept ∙ first.written_kept;
      tokens_kept = rest.tokens_kept ∙ first.tokens_kept;
      processed = omega (arith, rest.processed, first.processed);
      last_kept = rest.last_kept ∙ first.last_kept;
      hashes_kept = rest.hashes_kept ∙ first.hashes_kept;
    }

pub add_tokens-IsSynced :
    (m : TokenBufferManager) (conversation : List ℕ)
    → IsAligned m conversation
    → IsSynced (add_tokens (drop m.total_tokens_processed conversation) m) conversation
add_tokens-IsSynced m conversation h =
    let new = drop m.total_tokens_processed conversation in
    let added = add_tokens-IsAdded new m in
    let packed = add_tokens-IsPacked new m h.packed in
    record {
      packed = packed.0;
      counted = added.written_kept ∙ (h.counted ∙ ap length (sym added.tokens_kept));
      processed =
          omega
            (arith, added.processed, length-drop m.total_tokens_processed conversation, h.bounded);
      synced =
          ap (λ (t : List ℕ). t ++ buffered (add_tokens new m)) added.tokens_kept
          ∙ (ap (λ (t : List ℕ). m.all_written_tokens ++ t) packed.1 ∙ h.aligned);
    }
