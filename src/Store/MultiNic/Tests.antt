-- ===== src/Store/MultiNic/Tests.antt =====
-- The socket callback's theorems at concrete inputs.
use kv_store_v.Base.{ℕ, ◌+◌, ◌≡◌, refl, Bool, true, Option, some, ◌==◌, arith}
use kv_store_v.Store.MultiNic.{try_interfaces}
use kv_store_v.Store.MultiNic.Bound.{IsTidy, is_bound, try_interfaces-IsTidy, try_interfaces-bound}

abbrev numbered : ℕ → Option ℕ
numbered k = some (k + 3)

-- Only interface 1 works.
abbrev second_only : ℕ → ℕ → Bool
second_only fd index = index == 1

try_interfaces-IsTidy_example : IsTidy second_only 3 (try_interfaces numbered second_only 3 2 3 0)
try_interfaces-IsTidy_example = try_interfaces-IsTidy second_only 3 numbered 2 3 0 (omega arith)

try_interfaces-bound_example : is_bound (try_interfaces numbered second_only 3 2 3 0).bound ≡ true
try_interfaces-bound_example =
    try_interfaces-bound second_only 3 numbered 2 1 (omega arith) (omega arith) (λ k. (k + 3, refl))
      (λ fd. refl)
