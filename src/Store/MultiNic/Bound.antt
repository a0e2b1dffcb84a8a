-- ===== src/Store/MultiNic/Bound.antt =====
-- The attempts of the socket callback: no socket is lost, and an interface that works is used.
use native.Mathlib.Nat.{mod-lt, mod-eq_of_lt, add-mod_right, mod-add-mod, mod_self}
use kv_store_v.Base.{
  ℕ, zero, suc, ◌+◌, ◌-◌, ◌%◌, ◌<◌, ◌≤◌, ◌≡◌, refl, sym, ap, ◌∙◌, inl, inr, Bool, true, false,
  Bool-cases, List, [], ◌∷◌, ◌++◌, Option, none, some, if-cases, ltb, ltb→lt, leb, arith, All,
}
use kv_store_v.Store.MultiNic.{next_index, Attempts, bind_or_close, attempt_with, try_interfaces}

abbrev pub socket_of : Option (ℕ × ℕ) → List ℕ
socket_of none = []
socket_of (some (fd, index)) = fd ∷ []

abbrev pub is_bound : Option (ℕ × ℕ) → Bool
is_bound none = false
is_bound (some found) = true

-- The socket is bound to an interface that exists.
abbrev pub BoundBelow : (ℕ → ℕ → Bool) → ℕ → Option (ℕ × ℕ) → Type 0
BoundBelow binds num_nics none = Unit
BoundBelow binds num_nics (some (fd, index)) = (binds fd index ≡ true) × (index < num_nics)

-- Every socket that was created is closed, but the one that is bound; only interfaces that exist are tried.
pub record IsTidy (binds : ℕ → ℕ → Bool) (num_nics : ℕ) (r : Attempts) : Type 0 where
  pub kept : r.opened ≡ r.closed ++ socket_of r.bound
  pub below : All (λ (i : ℕ). i < num_nics) r.tried
  pub works : BoundBelow binds num_nics r.bound

module _ (binds : ℕ → ℕ → Bool) (num_nics : ℕ) where
  bind_or_close-IsTidy :
      (b : Bool) (fd index : ℕ) (rest : Attempts)
      → binds fd index ≡ b
      → index < num_nics
      → IsTidy binds num_nics rest
      → IsTidy binds num_nics (bind_or_close b fd index rest)
  bind_or_close-IsTidy true fd index rest e below h = record {
    kept = refl;
    below = (below, tt);
    works = (e, below);
  }
  bind_or_close-IsTidy false fd index rest e below h = record {
    kept = ap (λ (t : List ℕ). fd ∷ t) h.kept;
    below = (below, h.below);
    works = h.works;
  }

  attempt_with-IsTidy :
      (s : Option ℕ) (index : ℕ) (rest : Attempts)
      → index < num_nics
      → IsTidy binds num_nics rest
      → IsTidy binds num_nics (attempt_with binds s index rest)
  attempt_with-IsTidy none index rest below h = h
  attempt_with-IsTidy (some fd) index rest below h =
      bind_or_close-IsTidy (binds fd index) fd index rest refl below h

  module _ (socket : ℕ → Option ℕ) (start : ℕ) where
    -- With at least one interface, whatever sockets can be created and bound: each socket that the attempts create
    -- is closed again unless it is the bound one, only interfaces of the list are tried, and a socket that
    -- is returned as bound is bound to one of them.
    pub try_interfaces-IsTidy :
        (n attempt : ℕ)
        → 0 < num_nics
        → IsTidy binds num_nics (try_interfaces socket binds num_nics start n attempt)
    unfolding try_interfaces
    try_interfaces-IsTidy zero attempt some_nic = record { kept = refl; below = tt; works = tt }
    try_interfaces-IsTidy (suc n) attempt some_nic =
        attempt_with-IsTidy (socket attempt) _ _ (mod-lt (start + attempt) some_nic)
          (try_interfaces-IsTidy n (suc attempt) some_nic)

    bound_later :
        (s : Option ℕ) (index : ℕ) (rest : Attempts)
        → is_bound rest.bound ≡ true
        → is_bound (attempt_with binds s index rest).bound ≡ true
    bound_later none index rest h = h
    bound_later (some fd) index rest h = by (binds fd index)
      where
        by : (b : Bool) → is_bound (bind_or_close b fd index rest).bound ≡ true
        by true = refl
        by false = h

    bound_now :
        (s : Option ℕ) (fd index : ℕ) (rest : Attempts)
        → s ≡ some fd
        → binds fd index ≡ true
        → is_bound (attempt_with binds s index rest).bound ≡ true
    bound_now s fd index rest e b = rw (e, b) refl

    reaches :
        (n attempt k fd : ℕ)
        → attempt ≤ k
        → k < attempt + n
        → socket k ≡ some fd
        → binds fd ((start + k) % num_nics) ≡ true
        → is_bound (try_interfaces socket binds num_nics start n attempt).bound ≡ true
    unfolding try_interfaces
    reaches zero attempt k fd l h e b = absurd (omega arith)
    reaches (suc n) attempt k fd l h e b = elim (Bool-cases (ltb attempt k)) [
      | inl later ↦
          bound_later (socket attempt) _ _
            (reaches n (suc attempt) k fd (ground (arith, later)) (omega arith) e b)
      | inr last ↦
          let here : attempt ≡ k = ground (arith, last, l) in
          bound_now (socket attempt) fd _ _ (ap socket here ∙ e)
            (ap (λ (i : ℕ). binds fd ((start + i) % num_nics)) here ∙ b)
    ]

    -- The attempt that reaches the interface `i`.
    turn_of :
        (i : ℕ)
        → i < num_nics
        → start < num_nics
        → (k : ℕ) × (k < num_nics) × ((start + k) % num_nics ≡ i)
    turn_of i below inside = elim (Bool-cases (leb start i)) [
      | inl after ↦ (
        i - start,
        omega arith,
        ap (λ (n : ℕ). n % num_nics) (ground (arith, after)) ∙ mod-eq_of_lt below,
      )
      | inr before ↦ (
        i + num_nics - start,
        ground (arith, before),
        ap (λ (n : ℕ). n % num_nics) (wrapped (ground (arith, before)))
            ∙ (add-mod_right i num_nics ∙ mod-eq_of_lt below),
      )
    ]
      where
        wrapped : i < start → start + (i + num_nics - start) ≡ i + num_nics
        wrapped l = omega (arith, l, inside)

    -- If a socket can be created in every attempt, and be bound to some interface `i` of the list, then the
    -- attempts from any start index of the list end with a bound socket.
    pub try_interfaces-bound :
        (i : ℕ)
        → i < num_nics
        → start < num_nics
        → ((k : ℕ) → (fd : ℕ) × (socket k ≡ some fd))
        → ((fd : ℕ) → binds fd i ≡ true)
        → is_bound (try_interfaces socket binds num_nics start num_nics 0).bound ≡ true
    try_interfaces-bound i below inside created works =
        let (k, before, reached) = turn_of i below inside in
        let (fd, e) = created k in
        reaches num_nics 0 k fd (omega arith) (omega arith) e (ap (binds fd) reached ∙ works fd)

next_index-mod : (num_nics r : ℕ) → r < num_nics → next_index num_nics r ≡ (r + 1) % num_nics
unfolding next_index
next_index-mod num_nics r below =
    if-cases (λ (x : ℕ). x ≡ (r + 1) % num_nics) (ltb (r + 1) num_nics)
      (λ less. sym (mod-eq_of_lt (ltb→lt (r + 1) num_nics less)))
      (λ last. sym (ap (λ (x : ℕ). x % num_nics) (ground (arith, last, below)) ∙ mod_self num_nics))

-- The start index that the k-th of several calls takes, if no two calls overlap.
pub start_of : ℕ → ℕ → ℕ → ℕ
start_of num_nics first zero = first
start_of num_nics first (suc k) = next_index num_nics (start_of num_nics first k)

-- Calls that do not overlap take the interfaces in turn: the k-th call starts at the first index plus k, modulo
-- the number of interfaces.
pub next_index-round :
    (num_nics first k : ℕ) → first < num_nics → start_of num_nics first k ≡ (first + k) % num_nics
unfolding start_of next_index
next_index-round num_nics first zero inside =
    sym (ap (λ (x : ℕ). x % num_nics) (omega arith) ∙ mod-eq_of_lt inside)
next_index-round num_nics first (suc k) inside =
    ap (next_index num_nics) (next_index-round num_nics first k inside)
    ∙ (next_index-mod num_nics ((first + k) % num_nics) (mod-lt (first + k) (omega arith))
        ∙ (mod-add-mod (first + k) num_nics 1 ∙ ap (λ (x : ℕ). x % num_nics) (omega arith)))
