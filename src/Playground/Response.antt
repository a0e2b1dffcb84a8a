-- ===== src/Playground/Response.antt =====
-- generateSyntheticResponse and the run's identifier in KVPlayground/src/main.cpp. A token is the 64-bit pattern
-- of an int64_t; all of these are small. `&` with a mask of low bits is a remainder, and `|` of numbers
-- without common bits is their sum.
use kv_store_v.Base.{
  ℕ, zero, suc, ◌+◌, ◌-◌, ◌*◌, ◌/◌, ◌%◌, ◌^◌, ◌<◌, ◌≤◌, ◌≡◌, refl, ap, List, [], ◌∷◌, ◌++◌, none,
  some, if◌then◌else◌, ◌==◌, arith, length, length-append, get_elem?, word,
}

-- 40 bits of the time in milliseconds, 12 of the process id and 12 of the run.
abbrev pub unique_run_id : ℕ → ℕ → ℕ → ℕ
unique_run_id timestamp_ms process_id run_id =
    (timestamp_ms % 2 ^ 40) * 2 ^ 24 + (process_id % 2 ^ 12) * 2 ^ 12 + run_id % 2 ^ 12

abbrev pub response_token : ℕ → ℕ → ℕ → ℕ
response_token unique_run_id turn_number i =
    let token = 1000 + i in
    if i % 5 == 0
    then token + unique_run_id / 2 ^ 16 % 2 ^ 16
    else if i % 5 == 1
    then token + unique_run_id / 2 ^ 8 % 2 ^ 16
    else if i % 5 == 2
    then token + (turn_number * 10 + unique_run_id % 2 ^ 8)
    else if i % 5 == 3
    then token + unique_run_id / 2 ^ 24 % 2 ^ 8 * 7
    else token + ((turn_number + i) * 3 + unique_run_id / 2 ^ 12 % 2 ^ 4)

-- The loop from `i` on, with `n` rounds left.
abbrev pub response_tokens : ℕ → ℕ → ℕ → ℕ → List ℕ
response_tokens unique_run_id turn_number zero i = []
response_tokens unique_run_id turn_number (suc n) i =
    response_token unique_run_id turn_number i ∷ response_tokens unique_run_id turn_number n (suc i)

-- A base size below 8 leaves the loop out.
unfoldable pub generate_synthetic_response : ℕ → ℕ → ℕ → ℕ → List ℕ
generate_synthetic_response unique_run_id thread_id turn_number base_response_size =
    (unique_run_id / 2 ^ 32 % 2 ^ 32
      ∷ unique_run_id % 2 ^ 32
      ∷ (20000 + thread_id)
      ∷ (30000 + turn_number)
      ∷ response_tokens unique_run_id turn_number (base_response_size - 8) 0)
    ++ ((40000 + turn_number)
        ∷ (50000 + thread_id)
        ∷ unique_run_id % 2 ^ 32
        ∷ unique_run_id / 2 ^ 32 % 2 ^ 32
        ∷ [])

length-response_tokens : (u turn n i : ℕ) → length (response_tokens u turn n i) ≡ n
length-response_tokens u turn zero i = refl
length-response_tokens u turn (suc n) i = ap suc (length-response_tokens u turn n (suc i))

pub length-generate_synthetic_response :
    (u thread turn size : ℕ)
    → 8 ≤ size
    → length (generate_synthetic_response u thread turn size) ≡ size
unfolding generate_synthetic_response
length-generate_synthetic_response u thread turn size h = omega (
  arith,
  length-response_tokens u turn (size - 8) 0,
  length-append (response_tokens u turn (size - 8) 0)
      ((40000 + turn) ∷ (50000 + thread) ∷ u % 2 ^ 32 ∷ u / 2 ^ 32 % 2 ^ 32 ∷ []),
)

first : List ℕ → ℕ → ℕ
first xs i = elim (get_elem? xs i) [ none ↦ 0 | some x ↦ x ]

response-run :
    (u u' thread thread' turn turn' size size' : ℕ)
    → u < word
    → u' < word
    → generate_synthetic_response u thread turn size
      ≡ generate_synthetic_response u' thread' turn' size'
    → u ≡ u'
unfolding generate_synthetic_response first
response-run u u' thread thread' turn turn' size size' h h' e = omega (arith, high, low)
  where
    high : u / 2 ^ 32 % 2 ^ 32 ≡ u' / 2 ^ 32 % 2 ^ 32
    high = ap (λ xs. first xs 0) e

    low : u % 2 ^ 32 ≡ u' % 2 ^ 32
    low = ap (λ xs. first xs 1) e

-- The identifier of a run fits in 64 bits.
unique_run_id_bound : (ts pid run : ℕ) → unique_run_id ts pid run < word
unique_run_id_bound ts pid run = omega arith

-- Two runs have the same identifier only if the low 40 bits of their times, the low 12 bits of their process ids
-- and the low 12 bits of their run numbers agree, and so have two runs one of whose responses are equal, at any
-- turns, threads and sizes.
generate-unique_run_id :
    (ts ts' pid pid' run run' thread thread' turn turn' size size' : ℕ)
    → generate_synthetic_response (unique_run_id ts pid run) thread turn size
      ≡ generate_synthetic_response (unique_run_id ts' pid' run') thread' turn' size'
    → (ts % 2 ^ 40 ≡ ts' % 2 ^ 40) × (pid % 2 ^ 12 ≡ pid' % 2 ^ 12) × (run % 2 ^ 12 ≡ run' % 2 ^ 12)
generate-unique_run_id ts ts' pid pid' run run' thread thread' turn turn' size size' e =
    let same : unique_run_id ts pid run ≡ unique_run_id ts' pid' run' =
      response-run _ _ thread thread' turn turn' size size' (unique_run_id_bound ts pid run)
        (unique_run_id_bound ts' pid' run') e in
    (omega (arith, same), omega (arith, same), omega (arith, same))
