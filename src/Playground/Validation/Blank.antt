-- ===== src/Playground/Validation/Blank.antt =====
-- What a validation cannot notice.
use kv_store_v.Base.{
  ℕ, suc, ◌*◌, ◌≡◌, refl, sym, ◌∙◌, List, [], ◌∷◌, map, Bytes, empty, length, arith, All,
}
use kv_store_v.Types.{BlockLocation}
use kv_store_v.Client.Calls.{ReadResult}
use kv_store_v.Playground.Buffer.{buffer_block_size}
use kv_store_v.Playground.Stats.{OperationStats, CacheStats}
use kv_store_v.Playground.Validation.{KvStore, tokens_match, validate_cache_retrieval}
use kv_store_v.Playground.Validation.Outcome.{is_intact, all_intact, validate-is_retrieved}

abbrev pub IsBlank : ReadResult → Type 0
IsBlank (success, chunk, metrics) = chunk.tokens ≡ []

is_intact-IsBlank :
    (behind : ℕ → ℕ) (expected expected' : List ℕ) (start : ℕ) (r : ReadResult)
    → IsBlank r
    → is_intact behind expected start r ≡ is_intact behind expected' start r
unfolding tokens_match
is_intact-IsBlank behind expected expected' start (success, chunk, metrics) blank = rw blank refl

all_intact-IsBlank :
    (behind : ℕ → ℕ) (expected expected' : List ℕ) (i : ℕ) (results : List ReadResult)
    → All IsBlank results
    → all_intact behind expected i results ≡ all_intact behind expected' i results
all_intact-IsBlank behind expected expected' i [] blank = refl
all_intact-IsBlank behind expected expected' i (r ∷ results) blank =
    rw
      (
        is_intact-IsBlank behind expected expected' (i * buffer_block_size) r blank.0,
        all_intact-IsBlank behind expected expected' (suc i) results blank.1,
      )
      refl

-- If the chunks that are read carry no tokens, then a validation of other tokens, as many and with the same
-- lookup result, has the same outcome: no token is compared.
pub validate-IsBlank :
    (store : KvStore) (expected expected' hashes hashes' : List ℕ) (s : CacheStats)
    (ops : OperationStats)
    → length expected ≡ length expected'
    → (store.lookup expected hashes).0 ≡ (store.lookup expected' hashes').0
    → ((locations : List Bytes) → All IsBlank (store.streaming_read locations))
    → (validate_cache_retrieval store expected hashes s ops).0
      ≡ (validate_cache_retrieval store expected' hashes' s ops).0
validate-IsBlank store expected expected' hashes hashes' s ops same found blank =
    validate-is_retrieved store expected hashes s ops
    ∙ (rw
          (
            found,
            same,
            emptiness expected expected' same,
            all_intact-IsBlank store.behind expected expected' 0 _ (
                blank (
                  map (λ (l : BlockLocation). l.location)
                    (store.lookup expected' hashes').0.locations)),
          )
          refl
        ∙ sym (validate-is_retrieved store expected' hashes' s ops))
  where
    emptiness : (xs ys : List ℕ) → length xs ≡ length ys → empty xs ≡ empty ys
    emptiness [] [] e = refl
    emptiness [] (y ∷ ys) e = absurd (omega (arith, e))
    emptiness (x ∷ xs) [] e = absurd (omega (arith, e))
    emptiness (x ∷ xs) (y ∷ ys) e = refl
