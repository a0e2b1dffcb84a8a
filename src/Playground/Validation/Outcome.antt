-- ===== src/Playground/Validation/Outcome.antt =====
-- When a validation succeeds, what it counts, and what it cannot notice.
use kv_store_v.Base.{
  ℕ, suc, ◌+◌, ◌*◌, ◌≡◌, refl, ◌∙◌, Bool, true, false, not, ◌&&◌, ◌||◌, List, [], ◌∷◌, map,
  if◌then◌else◌, ◌==◌, empty, length, arith,
}
use kv_store_v.Types.{BlockLocation, LookupResult}
use kv_store_v.Client.Calls.{ReadResult}
use kv_store_v.Playground.Buffer.{buffer_block_size}
use kv_store_v.Playground.Stats.{OperationStats, CacheStats}
use kv_store_v.Playground.Validation.{
  KvStore, to_int, tokens_match, check_result, verify_blocks, check_length, conclude,
  validate_found, validate_cache_retrieval,
}

-- The result is a chunk with a buffer, whose tokens pass the comparison.
abbrev pub is_intact : (ℕ → ℕ) → List ℕ → ℕ → ReadResult → Bool
is_intact behind expected start (success, chunk, metrics) =
    success && (not (chunk.buffer_size == 0) && tokens_match behind expected start chunk.tokens)

abbrev pub all_intact : (ℕ → ℕ) → List ℕ → ℕ → List ReadResult → Bool
all_intact behind expected i [] = true
all_intact behind expected i (r ∷ results) =
    is_intact behind expected (i * buffer_block_size) r
    && all_intact behind expected (suc i) results

-- The validation counters agree.
pub record IsSame (s t : CacheStats) : Type 0 where
  pub attempts : t.validation_attempts ≡ s.validation_attempts
  pub successes : t.validation_successes ≡ s.validation_successes
  pub failures : t.validation_failures ≡ s.validation_failures
  pub hits : t.cache_hits ≡ s.cache_hits

IsSame-trans : {s t u : CacheStats} → IsSame s t → IsSame t u → IsSame s u
IsSame-trans h k = record {
  attempts = k.attempts ∙ h.attempts;
  successes = k.successes ∙ h.successes;
  failures = k.failures ∙ h.failures;
  hits = k.hits ∙ h.hits;
}

-- A step keeps the counters, and sets hasErrors unless `b`.
record IsChecked (b : Bool) (s t : CacheStats × Bool) : Type 0 where
  same : IsSame s.0 t.0
  errors : t.1 ≡ (s.1 || not b)

or_true : (e : Bool) → true ≡ (e || true)
or_true true = refl
or_true false = refl

or_false : (e : Bool) → e ≡ (e || false)
or_false true = refl
or_false false = refl

IsSame-refl : (s : CacheStats) → IsSame s s
IsSame-refl s = record { attempts = refl; successes = refl; failures = refl; hits = refl }

checked :
    (found no_buffer match e : Bool) (s failed mismatched : CacheStats)
    → IsSame s failed
    → IsSame s mismatched
    → IsChecked
        (found && (not no_buffer && match))
        (s, e)
        (if not found || no_buffer
          then (failed, true)
          else if match
          then (s, e)
          else (mismatched, true))
checked true true match e s failed mismatched h k = record { same = h; errors = or_true e }
checked true false true e s failed mismatched h k = record {
  same = IsSame-refl s;
  errors = or_false e;
}
checked true false false e s failed mismatched h k = record { same = k; errors = or_true e }
checked false no_buffer match e s failed mismatched h k = record { same = h; errors = or_true e }

check_result-IsChecked :
    (behind : ℕ → ℕ) (expected : List ℕ) (start : ℕ) (r : ReadResult) (s : CacheStats × Bool)
    → IsChecked (is_intact behind expected start r) s (check_result behind expected start r s)
check_result-IsChecked behind expected start (success, chunk, metrics) (stats, e) =
    checked success (chunk.buffer_size == 0) (tokens_match behind expected start chunk.tokens) e
      stats _ _ (record { attempts = refl; successes = refl; failures = refl; hits = refl })
      (record { attempts = refl; successes = refl; failures = refl; hits = refl })

verify_blocks-IsChecked :
    (behind : ℕ → ℕ) (expected : List ℕ) (i : ℕ) (results : List ReadResult) (s : CacheStats × Bool)
    → IsChecked (all_intact behind expected i results) s (verify_blocks behind expected i results s)
unfolding verify_blocks
verify_blocks-IsChecked behind expected i [] (s, e) = record {
  same = IsSame-refl s;
  errors = or_false e;
}
verify_blocks-IsChecked behind expected i (r ∷ results) s =
    let start = i * buffer_block_size in
    let step = check_result-IsChecked behind expected start r s in
    let rest =
      verify_blocks-IsChecked behind expected (suc i) results
        (check_result behind expected start r s) in
    record {
      same = IsSame-trans step.same rest.same;
      errors = rest.errors ∙ rw step.errors (or_not s.1 _ _);
    }
  where
    or_not : (e a b : Bool) → ((e || not a) || not b) ≡ (e || not (a && b))
    or_not true a b = refl
    or_not false true b = refl
    or_not false false b = refl

check_length-IsChecked :
    (matched size : ℕ) (s : CacheStats)
    → IsChecked (matched == to_int size) (s, false) (check_length matched size s)
check_length-IsChecked matched size s =
    by (matched == to_int size) _
      (record { attempts = refl; successes = refl; failures = refl; hits = refl })
  where
    by :
        (b : Bool) (missing : CacheStats)
        → IsSame s missing
        → IsChecked b (s, false) (if b then (s, false) else (missing, true))
    by true missing h = record { same = IsSame-refl s; errors = refl }
    by false missing h = record { same = h; errors = refl }

-- Each attempt is a success or a failure, and each success is a hit.
pub record IsCounted (s : CacheStats) : Type 0 where
  pub attempted : s.validation_attempts ≡ s.validation_successes + s.validation_failures
  pub hit : s.cache_hits ≡ s.validation_successes

-- What is left after an attempt was counted and before its outcome is.
abbrev IsConcluded : Bool → CacheStats → Bool × CacheStats × OperationStats → Type 0
IsConcluded b s r = (r.0 ≡ b) × (IsCounted s → IsCounted r.1)

conclude-IsCounted :
    (matched : ℕ) (ops : OperationStats) (b : Bool) (s : CacheStats) (t : CacheStats × Bool)
    → IsSame (record s { validation_attempts = s.validation_attempts + 1 }) t.0
    → t.1 ≡ not b
    → IsConcluded b s (conclude matched ops t)
conclude-IsCounted matched ops true s (t, true) h e = cc
conclude-IsCounted matched ops false s (t, false) h e = cc
conclude-IsCounted matched ops false s (t, true) h e = (
  refl,
  λ c. record {
    attempted = omega (arith, h.attempts, h.successes, h.failures, c.attempted);
    hit = omega (arith, h.successes, h.hits, c.hit);
  },
)
conclude-IsCounted matched ops true s (t, false) h e = (
  refl,
  λ c. record {
    attempted = omega (arith, h.attempts, h.successes, h.failures, c.attempted);
    hit = omega (arith, h.successes, h.hits, c.hit);
  },
)

-- What a lookup and the reads have to give for a validation to succeed.
abbrev pub is_retrieved : KvStore → List ℕ → LookupResult → Bool
is_retrieved store expected result =
    not (result.cached_blocks == 0)
    && (to_int (result.cached_blocks * buffer_block_size) == to_int (length expected)
        && all_intact store.behind expected 0
            (store.streaming_read (map (λ (l : BlockLocation). l.location) result.locations)))

branch-IsConcluded :
    (b c : Bool) (s : CacheStats) (r r' : Bool × CacheStats × OperationStats)
    → IsConcluded false s r
    → IsConcluded c s r'
    → IsConcluded (not b && c) s (if b then r else r')
branch-IsConcluded true c s r r' h k = h
branch-IsConcluded false c s r r' h k = k

validate_found-IsConcluded :
    (store : KvStore) (expected : List ℕ) (result : LookupResult) (s : CacheStats)
    (ops : OperationStats)
    → IsConcluded (is_retrieved store expected result) s (
        validate_found store expected result
          (record s { validation_attempts = s.validation_attempts + 1 })
          ops)
unfolding validate_found
validate_found-IsConcluded store expected result s ops =
    branch-IsConcluded (result.cached_blocks == 0) _ s _ _
      (refl, λ c. record { attempted = omega (arith, c.attempted); hit = c.hit })
      (conclude-IsCounted _ _ _ s _ (IsSame-trans lengths.same blocks.same)
        (blocks.errors ∙ rw lengths.errors (neither _ _)))
  where
    attempted : CacheStats
    attempted = record s { validation_attempts = s.validation_attempts + 1 }

    matched : ℕ
    matched = to_int (result.cached_blocks * buffer_block_size)

    results : List ReadResult
    results = store.streaming_read (map (λ (l : BlockLocation). l.location) result.locations)

    lengths :
        IsChecked
          (matched == to_int (length expected))
          (attempted, false)
          (check_length matched (length expected) attempted)
    lengths = check_length-IsChecked matched (length expected) attempted

    blocks :
        IsChecked
          (all_intact store.behind expected 0 results)
          (check_length matched (length expected) attempted)
          (verify_blocks store.behind expected 0 results
            (check_length matched (length expected) attempted))
    blocks = verify_blocks-IsChecked store.behind expected 0 results _

    neither : (a b : Bool) → (not a || not b) ≡ not (a && b)
    neither true b = refl
    neither false b = refl

module _ (store : KvStore) (expected hashes : List ℕ) (s : CacheStats) (ops : OperationStats) where
  validate-IsConcluded :
      IsConcluded
        (empty expected || is_retrieved store expected (store.lookup expected hashes).0)
        s
        (validate_cache_retrieval store expected hashes s ops)
  unfolding validate_cache_retrieval
  validate-IsConcluded =
      by (empty expected) _ _
        (validate_found-IsConcluded store expected (store.lookup expected hashes).0 s _)
    where
      by :
          (b c : Bool) (r : Bool × CacheStats × OperationStats)
          → IsConcluded c s r
          → IsConcluded (b || c) s (if b then (true, s, ops) else r)
      by true c r h = (refl, λ k. k)
      by false c r h = h

  pub validate-is_retrieved :
      (validate_cache_retrieval store expected hashes s ops).0
      ≡ (empty expected || is_retrieved store expected (store.lookup expected hashes).0)
  validate-is_retrieved = validate-IsConcluded.0

  -- Validation keeps the counters consistent: attempts are successes and failures together, and hits are
  -- successes.
  pub validate-IsCounted :
      IsCounted s → IsCounted (validate_cache_retrieval store expected hashes s ops).1
  validate-IsCounted = validate-IsConcluded.1
