-- ===== src/Base/Decimal/RoundTrip.antt =====
-- A `uint64_t` that is printed is read back, whatever follows that is not a digit.
use Prim.Native.Nat.{ℕ, zero, suc, ◌+◌, ◌/◌, ◌%◌, ◌<◌}
use mathlib.Core.Bool.{true}
use mathlib.Core.List.{[], ◌∷◌}
use mathlib.Core.Path.{◌≡◌}
use native.Mathlib.Omega.{arith}
use kv_store_v.Base.Lists.{All}
use kv_store_v.Base.Errors.{Bytes, ok}
use kv_store_v.Base.Words.{word}
use kv_store_v.Base.Decimal.{emit, to_string, is_digit, scan_digits, starts_digit, stoull}

abbrev pub IsDigit : ℕ → Type 0
IsDigit c = is_digit c ≡ true

scan-emit : (f n : ℕ) (out : Bytes) → n < f → scan_digits (emit f n out) 0 ≡ scan_digits out n
unfolding scan_digits emit
scan-emit zero n out h = elim h [ ]
scan-emit (suc f) n out h = ground (arith, scan-emit f (n / 10) ((48 + n % 10) ∷ out))

emit-digits : (f n : ℕ) (out : Bytes) → All IsDigit out → All IsDigit (emit f n out)
unfolding emit
emit-digits zero n out h = h
emit-digits (suc f) n out h = ground (arith, emit-digits f (n / 10) ((48 + n % 10) ∷ out))

emit-starts : (f n : ℕ) (out : Bytes) → n < f → starts_digit (emit f n out) ≡ true
unfolding emit
emit-starts zero n out h = elim h [ ]
emit-starts (suc f) n out h = ground (arith, emit-starts f (n / 10) ((48 + n % 10) ∷ out))

pub to_string-digits : (n : ℕ) → All IsDigit (to_string n)
unfolding to_string
to_string-digits n = emit-digits (suc n) n [] tt

stoull-digits :
    (s : Bytes) (n : ℕ) → starts_digit s ≡ true → scan_digits s 0 ≡ n → n < word → stoull s ≡ ok n
unfolding stoull
stoull-digits [] n h e b = cc
stoull-digits (c ∷ s) n h e b = ground arith

-- Reading what was printed gives the number back.
pub stoull-to_string : (n : ℕ) → n < word → stoull (to_string n) ≡ ok n
unfolding to_string
stoull-to_string n h =
    stoull-digits (emit (suc n) n []) n (emit-starts (suc n) n [] (omega arith))
      (unfold scan_digits in scan-emit (suc n) n [] (omega arith)) h
