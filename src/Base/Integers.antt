-- ===== src/Base/Integers.antt =====
-- `int` over the native numbers, with the library's constructors.
use Prim.Native.Nat.{ℕ, suc}
use mathlib.Core.Bool.{Bool, true, false}
use mathlib.Core.List.{◌∷◌}
use kv_store_v.Base.Errors.{Bytes}
use kv_store_v.Base.Decimal.{to_string}

pub data ℤ : Type 0 where
  pos negsuc : ℕ → ℤ

-- std::to_string of an int.
abbrev pub int_text : ℤ → Bytes
int_text (pos n) = to_string n
int_text (negsuc n) = b'-' ∷ to_string (suc n)

-- i >= 0
abbrev pub is_natural : ℤ → Bool
is_natural (pos n) = true
is_natural (negsuc n) = false
