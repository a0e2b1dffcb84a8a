-- ===== src/Base/Text/Search.antt =====
-- Where `find` stops, in terms of the text in front of the match.
use Prim.Native.Nat.{ℕ, ◌+◌}
use mathlib.Core.Path.{◌≡◌, refl, sym, ap, ◌∙◌}
use mathlib.Core.Bool.{true, false}
use mathlib.Core.Option.{Option, none, some}
use mathlib.Core.List.{[], ◌∷◌, ◌++◌}
use native.Mathlib.Omega.{arith}
use kv_store_v.Base.Lists.{length, drop, length-append, drop-length-append, take-length-append}
use kv_store_v.Base.Errors.{Bytes, ok}
use kv_store_v.Base.Text.{Lacks, starts_with, index_of, find, substr}

abbrev pub shift : ℕ → Option ℕ → Option ℕ
shift n none = none
shift n (some i) = some (n + i)

pub starts_with-append : (pat t : Bytes) → starts_with pat (pat ++ t) ≡ true
unfolding starts_with
starts_with-append [] t = refl
starts_with-append (c ∷ pat) t = ground (arith, starts_with-append pat t)

pub index_of-append : (pat t : Bytes) → index_of pat (pat ++ t) ≡ some 0
unfolding index_of
index_of-append [] [] = refl
index_of-append [] (c ∷ t) = refl
index_of-append (p ∷ pat) t = ground (arith, starts_with-append (p ∷ pat) t)

-- A byte at which the pattern does not start is passed over.
pub index_of-cons :
    (pat : Bytes) (c : ℕ) (t : Bytes)
    → starts_with pat (c ∷ t) ≡ false
    → index_of pat (c ∷ t) ≡ shift 1 (index_of pat t)
unfolding index_of
index_of-cons pat c t h = ground arith

-- So is a text that lacks the pattern's first byte.
pub index_of-Lacks :
    (q : ℕ) (pat xs t : Bytes)
    → Lacks q xs
    → index_of (q ∷ pat) (xs ++ t) ≡ shift (length xs) (index_of (q ∷ pat) t)
unfolding index_of
index_of-Lacks q pat [] t h = ground arith
index_of-Lacks q pat (x ∷ xs) t h = ground (arith, index_of-Lacks q pat xs t h.1)

-- The first `q` behind a text that lacks it.
pub index_of_byte :
    (q : ℕ) (xs t : Bytes) → Lacks q xs → index_of (q ∷ []) (xs ++ q ∷ t) ≡ some (length xs)
index_of_byte q xs t h =
    index_of-Lacks q [] xs (q ∷ t) h
    ∙ ap (shift (length xs)) (index_of-append (q ∷ []) t)
    ∙ ap some (omega arith)

pub find_at :
    (pre t pat : Bytes) (i : ℕ)
    → index_of pat t ≡ some i
    → find (pre ++ t) pat (length pre) ≡ length pre + i
unfolding find
find_at pre t pat i h = ground (arith, drop-length-append pre t, h)

pub substr_at : (pre mid t : Bytes) → substr (pre ++ (mid ++ t)) (length pre) (length mid) ≡ ok mid
unfolding substr
substr_at pre mid t = ground (
  arith,
  drop-length-append pre (mid ++ t),
  length-append pre (mid ++ t),
  take-length-append mid t,
)

-- A pattern that starts right behind a given front, in a text that is put together differently.
pub find_in :
    (front t whole pat : Bytes) (n : ℕ)
    → front ++ t ≡ whole
    → length front ≡ n
    → index_of pat t ≡ some 0
    → find whole pat n ≡ n
find_in front t whole pat n h l e =
    ap (λ (w : Bytes). find w pat n) (sym h)
    ∙ (ap (find (front ++ t) pat) (sym l) ∙ (find_at front t pat 0 e ∙ omega (arith, l)))

-- What stands behind the front.
pub drop_in :
    (front t whole : Bytes) (n : ℕ) → front ++ t ≡ whole → length front ≡ n → drop n whole ≡ t
drop_in front t whole n h l =
    ap (drop n) (sym h) ∙ (ap (λ (k : ℕ). drop k (front ++ t)) (sym l) ∙ drop-length-append front t)
