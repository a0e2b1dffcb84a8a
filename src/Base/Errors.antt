-- ===== src/Base/Errors.antt =====
-- C++ exceptions as values: a computation returns, or throws what a handler may catch.
use Prim.Native.Nat.{ℕ}
use mathlib.Core.List.{List}
use mathlib.Core.Path.{◌≡◌, refl}

-- `std::string` as the list of its bytes.
abbrev pub Bytes : Type 0
Bytes = List ℕ

-- The HTTP status of a StorageException; the code tells apart only the two that it names.
pub data Status : Type 0 where
  conflict precondition_failed : Status
  other_status : ℕ → Status

pub data Exn : Type 0 where
  invalid_argument out_of_range : Exn
  storage_exception : Status → Exn
  runtime_error : Bytes → Exn

pub data Result {ℓ} (A : Type ℓ) : Type ℓ where
  ok : A → Result A
  throw : Exn → Result A

infixl 5 ◌>>=◌
abbrev pub ◌>>=◌ {ℓ κ} : {A : Type ℓ} {B : Type κ} → Result A → (A → Result B) → Result B
ok a >>= f = f a
throw e >>= f = throw e

-- Inversion of a bind that returned.
module _ {ℓ κ} {A : Type ℓ} {B : Type κ} where
  pub >>=-eq-ok :
      (r : Result A) (next : A → Result B) {out : B}
      → (r >>= next) ≡ ok out
      → (got : A) × (r ≡ ok got) × (next got ≡ ok out)
  >>=-eq-ok (throw e) next returned = cc
  >>=-eq-ok (ok got) next returned = (got, refl, returned)
