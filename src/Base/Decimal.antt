-- ===== src/Base/Decimal.antt =====
-- `std::to_string` and `std::stoull` on `uint64_t`, as the C++ standard specifies them.
pub mod RoundTrip
use Prim.Native.Nat.{ℕ, zero, suc, ◌+◌, ◌-◌, ◌*◌, ◌/◌, ◌%◌}
use mathlib.Core.Bool.{Bool, false, ◌&&◌, ◌||◌}
use mathlib.Core.List.{[], ◌∷◌}
use kv_store_v.Base.Tests.{◌==◌, ltb, leb, if◌then◌else◌}
use kv_store_v.Base.Errors.{Bytes, Result, ok, throw, invalid_argument, out_of_range, ◌>>=◌}
use kv_store_v.Base.Words.{word}

-- The digits of `n` in front of `out`; the first argument bounds the rounds.
unfoldable pub emit : ℕ → ℕ → Bytes → Bytes
emit zero n out = out
emit (suc f) n out =
    let longer = (48 + n % 10) ∷ out in
    let rest = emit f (n / 10) longer in if ltb n 10 then longer else rest

unfoldable pub to_string : ℕ → Bytes
unfolding emit
to_string n = emit (suc n) n []

abbrev pub is_digit : ℕ → Bool
is_digit c = leb 48 c && leb c 57

-- std::isspace in the C locale
abbrev pub is_space : ℕ → Bool
is_space c = c == 32 || (leb 9 c && leb c 13)

unfoldable pub skip_space : Bytes → Bytes
skip_space [] = []
skip_space (c ∷ s) = let rest = skip_space s in if is_space c then rest else c ∷ s

-- The value of the leading digits, behind `n`.
unfoldable pub scan_digits : Bytes → ℕ → ℕ
scan_digits [] n = n
scan_digits (c ∷ s) n =
    let rest = scan_digits s (n * 10 + (c - 48)) in if is_digit c then rest else n

abbrev pub starts_digit : Bytes → Bool
starts_digit [] = false
starts_digit (c ∷ s) = is_digit c

unfoldable pub magnitude : Bytes → Result ℕ
unfolding scan_digits
magnitude s =
    if starts_digit s
    then if ltb (scan_digits s 0) word then ok (scan_digits s 0) else throw out_of_range
    else throw invalid_argument

unfoldable pub signed_magnitude : Bytes → Result ℕ
unfolding magnitude
signed_magnitude [] = throw invalid_argument
signed_magnitude (c ∷ s) =
    if c == b'+'
    then magnitude s
    else if c == b'-'
    then (do n ← magnitude s; ok ((word - n) % word))
    else magnitude (c ∷ s)

unfoldable pub stoull : Bytes → Result ℕ
unfolding skip_space signed_magnitude
stoull s = signed_magnitude (skip_space s)
