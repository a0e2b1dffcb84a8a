-- ===== src/Base/Perms.antt =====
-- Permutations keep the native length.
use mathlib.Core.List as List
use mathlib.Core.Nat as Core
use mathlib.Core.List.{Perm}
use mathlib.Core.List.Perm
use Prim.Native.Nat.{ℕ, suc}
use mathlib.Core.Path.{◌≡◌, refl, sym, ap, ◌∙◌}
use mathlib.Core.List.{List, [], ◌∷◌}
use kv_store_v.Base.Lists.{length}

count_up : Core.ℕ → ℕ
count_up Core.zero = 0
count_up (Core.suc n) = suc (count_up n)

count_up-length {ℓ} : {A : Type ℓ} (xs : List A) → count_up (List.length xs) ≡ length xs
unfolding count_up
count_up-length [] = refl
count_up-length (x ∷ xs) = ap suc (count_up-length xs)

pub Perm-length {ℓ} : {A : Type ℓ} {xs ys : List A} → Perm xs ys → length xs ≡ length ys
Perm-length {xs = xs} {ys = ys} p =
    sym (count_up-length xs) ∙ (ap count_up (Perm.length-eq p) ∙ count_up-length ys)
