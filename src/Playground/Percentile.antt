-- ===== src/Playground/Percentile.antt =====
-- Percentiles: values of the samples, in order, from the least to the largest.
use mathlib.Core.List.{Mem, Perm, mem-cons, mem-cons_self, mem-cons_of_mem, not-mem-nil}
use mathlib.Core.List.Perm
use mathlib.Core.Logic.Or
use native.Mathlib.Bridge.{le_prop}
use kv_store_v.Base.Perms.{Perm-length}
use kv_store_v.Base.{ℕ, zero, suc, ◌-◌, ◌*◌, ◌≤◌, ◌<◌, ◌≡◌, List, [], ◌∷◌, length, arith}
use kv_store_v.Playground.Stats.{at, percentile_index, get_percentile}

-- Every element is at most each later one.
abbrev pub IsSorted : List ℕ → Type 0
IsSorted xs = (i j : ℕ) → i ≤ j → j < length xs → at xs i ≤ at xs j

at-Mem : (xs : List ℕ) (i : ℕ) → i < length xs → Mem (at xs i) xs
at-Mem [] i h = absurd (omega arith)
at-Mem (x ∷ xs) zero h = mem-cons_self
at-Mem (x ∷ xs) (suc i) h = mem-cons_of_mem x (at-Mem xs i (omega arith))

below_all : (b x : ℕ) (xs : List ℕ) → ((i : ℕ) → i < length xs → at xs i ≤ b) → Mem x xs → x ≤ b
below_all b x [] h m = absurd (not-mem-nil m)
below_all b x (y ∷ ys) h m =
    Or.elim le_prop (mem-cons.0 m) (λ e. rw e (h 0 (omega arith)))
      (below_all b x ys (λ i l. h (suc i) (omega arith)))

index_bound : (size p : ℕ) → 0 < size → percentile_index size p < size
index_bound size p h = ground arith

mul_mono : (n p q : ℕ) → p ≤ q → n * p ≤ n * q
mul_mono zero p q h = omega arith
mul_mono (suc n) p q h = omega (arith, mul_mono n p q h)

index_mono : (size p q : ℕ) → p ≤ q → percentile_index size p ≤ percentile_index size q
index_mono size p q h = ground (arith, mul_mono size p q h)

index_last : (size : ℕ) → percentile_index size 100 ≡ size - 1
index_last size = ground arith

-- With a std::sort that gives an ordered permutation of its argument: for a sample `x`, a percentile is one of
-- the samples, a larger percentile is not less, and `x` is not above the 100th.
get_percentile-IsSorted :
    (sort : List ℕ → List ℕ) (times : List ℕ) (p q x : ℕ)
    → Mem x times
    → Perm (sort times) times
    → IsSorted (sort times)
    → p ≤ q
    → Mem (get_percentile sort times p) times
      × (get_percentile sort times p ≤ get_percentile sort times q)
      × (x ≤ get_percentile sort times 100)
unfolding get_percentile
get_percentile-IsSorted sort [] p q x m perm sorted h = absurd (not-mem-nil m)
get_percentile-IsSorted sort (t ∷ ts) p q x m perm sorted h = (
  (Perm.mem_iff perm).0 (at-Mem (sort times) _ (inside p)),
  sorted _ _ (index_mono (length times) p q h) (inside q),
  below_all _ x (sort times)
      (λ i l. sorted i _ (omega (arith, l, same, index_last (length times))) (inside 100))
      ((Perm.mem_iff perm).1 m),
)
  where
    times : List ℕ
    times = t ∷ ts

    same : length (sort times) ≡ length times
    same = Perm-length perm

    inside : (r : ℕ) → percentile_index (length times) r < length (sort times)
    inside r = omega (arith, same, index_bound (length times) r (omega arith))
