-- ===== src/Base/Text.antt =====
-- `std::string` as the list of its bytes: literals, equality, `find` and `substr`.
pub mod Search
use Prim.Native.Nat.{ℕ, suc, ◌+◌, ◌-◌, ◌^◌}
use Prim.Native.Char.{code}
use Prim.Native.String.{String}
use mathlib.Core.Path.{◌≡◌, refl, sym, ap, ◌∙◌}
use mathlib.Core.Logic.{◌↔◌, ◌≢◌}
use mathlib.Core.Bool.{Bool, true, false, ◌&&◌}
use mathlib.Core.Option.{Option, none, some}
use mathlib.Core.List.{List, [], ◌∷◌}
use native.Mathlib.Omega.{arith}
use kv_store_v.Base.Tests.{◌==◌, ltb, if◌then◌else◌}
use kv_store_v.Base.Errors.{Result, ok, throw, out_of_range, Bytes}
use kv_store_v.Base.Lists.{length, take, drop, All}

-- The code points of a literal; these are its bytes when the text is ASCII.
abbrev pub codes : String → Bytes
codes String.[] = []
codes (String.◌∷◌ c s) = code c ∷ codes s

abbrev pub empty {ℓ} : {A : Type ℓ} → List A → Bool
empty [] = true
empty (_ ∷ _) = false

pub empty_iff {ℓ} : {A : Type ℓ} (xs : List A) → (empty xs ≡ true) ↔ (xs ≡ [])
empty_iff [] = (λ h. refl, λ h. refl)
empty_iff (x ∷ xs) = (λ h. cc, λ h. cc)

-- operator== of std::string
unfoldable pub equal : Bytes → Bytes → Bool
equal [] [] = true
equal [] (_ ∷ _) = false
equal (_ ∷ _) [] = false
equal (x ∷ xs) (y ∷ ys) = x == y && equal xs ys

pub equal_self : (s : Bytes) → equal s s ≡ true
unfolding equal
equal_self [] = refl
equal_self (x ∷ xs) = ground (arith, equal_self xs)

pub equal_sound : (s t : Bytes) → equal s t ≡ true → s ≡ t
unfolding equal
equal_sound [] [] h = refl
equal_sound [] (_ ∷ _) h = cc
equal_sound (_ ∷ _) [] h = cc
equal_sound (x ∷ xs) (y ∷ ys) h = ground (arith, equal_sound xs ys)

pub equal_iff : (s t : Bytes) → (equal s t ≡ true) ↔ (s ≡ t)
equal_iff s t = (equal_sound s t, λ e. ap (equal s) (sym e) ∙ equal_self s)

abbrev pub Lacks : ℕ → Bytes → Type 0
Lacks b = All (λ c. c ≢ b)

-- std::string::npos
abbrev pub npos : ℕ
npos = 2 ^ 64 - 1

unfoldable pub starts_with : Bytes → Bytes → Bool
starts_with [] s = true
starts_with (p ∷ ps) [] = false
starts_with (p ∷ ps) (c ∷ s) = p == c && starts_with ps s

-- The first place in the list where the pattern stands.
unfoldable pub index_of : Bytes → Bytes → Option ℕ
unfolding starts_with
index_of pat [] = if starts_with pat [] then some 0 else none
index_of pat (c ∷ s) =
    let later = index_of pat s in
    if starts_with pat (c ∷ s) then some 0 else elim later [ none ↦ none | some i ↦ some (suc i) ]

-- s.find(pat, pos)
unfoldable pub find : Bytes → Bytes → ℕ → ℕ
unfolding index_of
find s pat pos = elim (index_of pat (drop pos s)) [ none ↦ npos | some i ↦ pos + i ]

-- s.substr(pos, n)
unfoldable pub substr : Bytes → ℕ → ℕ → Result Bytes
substr s pos n = if ltb (length s) pos then throw out_of_range else ok (take n (drop pos s))
