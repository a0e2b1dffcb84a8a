-- ===== src/Playground/Packing.antt =====
-- The buffer keeps the tokens in order and cuts them into full blocks.
use kv_store_v.Base.{
  ℕ, ◌*◌, ◌<◌, ◌≡◌, refl, sym, ap, ◌∙◌, List, [], ◌∷◌, ◌++◌, append-nil, append_assoc, if-cases,
  ltb, arith, length, length-append, All, All-append,
}
use kv_store_v.Playground.Buffer.{
  TokenBufferManager, buffer_block_size, add_token, add_tokens, get_total_tokens,
}

abbrev pub concat : List (List ℕ) → List ℕ
concat [] = []
concat (b ∷ bs) = b ++ concat bs

concat-append : (bs cs : List (List ℕ)) → concat (bs ++ cs) ≡ concat bs ++ concat cs
concat-append [] cs = refl
concat-append (b ∷ bs) cs =
    ap (λ (t : List ℕ). b ++ t) (concat-append bs cs) ∙ sym (append_assoc b (concat bs) (concat cs))

-- All tokens of the buffer, in order.
abbrev pub buffered : TokenBufferManager → List ℕ
buffered m = concat m.completed_blocks ++ m.current_block

abbrev pub IsBlock : List ℕ → Type 0
IsBlock b = length b ≡ buffer_block_size

-- Completed blocks are full, and the current one is not.
pub record IsPacked (m : TokenBufferManager) : Type 0 where
  pub full : All IsBlock m.completed_blocks
  pub partial_block : length m.current_block < buffer_block_size

add_token-IsPacked : (t : ℕ) (m : TokenBufferManager) → IsPacked m → IsPacked (add_token t m)
unfolding add_token
add_token-IsPacked t m p =
    if-cases IsPacked (ltb (length (m.current_block ++ t ∷ [])) buffer_block_size)
      (λ short. record { full = p.full; partial_block = ground (arith, short) })
      (λ long. record {
        full =
            All-append IsBlock m.completed_blocks ((m.current_block ++ t ∷ []) ∷ []) p.full
              (ground (arith, long, length-append m.current_block (t ∷ []), p.partial_block), tt);
        partial_block = omega arith;
      })

add_token-buffered :
    (t : ℕ) (m : TokenBufferManager) → buffered (add_token t m) ≡ buffered m ++ t ∷ []
unfolding add_token
add_token-buffered t m =
    if-cases (λ (r : TokenBufferManager). buffered r ≡ buffered m ++ t ∷ [])
      (ltb (length (m.current_block ++ t ∷ [])) buffer_block_size)
      (λ short. sym (append_assoc (concat m.completed_blocks) m.current_block (t ∷ [])))
      (λ long.
        append-nil (concat (m.completed_blocks ++ (m.current_block ++ t ∷ []) ∷ []))
        ∙ concat-append m.completed_blocks ((m.current_block ++ t ∷ []) ∷ [])
        ∙ ap (λ (x : List ℕ). concat m.completed_blocks ++ x)
            (append-nil (m.current_block ++ t ∷ []))
        ∙ sym (append_assoc (concat m.completed_blocks) m.current_block (t ∷ [])))

-- Adding tokens to a packed buffer appends them behind the tokens that it holds, none lost or moved, and
-- leaves it packed: every completed block has exactly 128 tokens and the current one fewer.
pub add_tokens-IsPacked :
    (tokens : List ℕ) (m : TokenBufferManager)
    → IsPacked m
    → IsPacked (add_tokens tokens m) × (buffered (add_tokens tokens m) ≡ buffered m ++ tokens)
unfolding add_tokens
add_tokens-IsPacked [] m p = (p, sym (append-nil (buffered m)))
add_tokens-IsPacked (t ∷ tokens) m p =
    let (packed, kept) = add_tokens-IsPacked tokens (add_token t m) (add_token-IsPacked t m p) in
    (
      packed,
      kept
          ∙ ap (λ (x : List ℕ). x ++ tokens) (add_token-buffered t m)
          ∙ append_assoc (buffered m) (t ∷ []) tokens,
    )

pub length-concat :
    (bs : List (List ℕ)) → All IsBlock bs → length (concat bs) ≡ length bs * buffer_block_size
length-concat [] h = omega arith
length-concat (b ∷ bs) h = omega (arith, length-append b (concat bs), length-concat bs h.1, h.0)

-- In a packed buffer, getTotalTokens counts the tokens that it holds.
pub get_total_tokens-IsPacked :
    (m : TokenBufferManager) → IsPacked m → get_total_tokens m ≡ length (buffered m)
unfolding get_total_tokens
get_total_tokens-IsPacked m p = omega (
  arith,
  length-append (concat m.completed_blocks) m.current_block,
  length-concat m.completed_blocks p.full,
)
