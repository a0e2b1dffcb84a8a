-- ===== src/Store/Lookup/Choice.antt =====
-- Which version of one block Lookup chooses, stated without its tests.
use kv_store_v.Base.{
  ℕ, ◌≡◌, ◌≢◌, refl, ◌⊎◌, inl, inr, true, List, [], ◌∷◌, Option, none, some, arith, Bool-cases,
  Bytes, Result, ok, ◌>>=◌, empty, ==_iff, ◌==◌, >>=-eq-ok,
}
use kv_store_v.Types.{BlockLocation}
use kv_store_v.Blob.Versions.{AdditionalVersion, parse_additional_versions}
use kv_store_v.Store.Lookup.{Probe, find_version, choose_version}

pub data Member {ℓ} {A : Type ℓ} (a : A) : List A → Type ℓ where
  here : {xs : List A} → Member a (a ∷ xs)
  there : {x : A} {xs : List A} → Member a xs → Member a (x ∷ xs)

-- Location `l` is a version of the probed blob that may stand at place `k` behind the block with hash
-- `parent`: the default version with that parent (at the head of the chain, with any parent), or a
-- listed version with that parent.
pub data IsVersion (k parent : ℕ) (name : Bytes) (p : Probe) (l : BlockLocation) : Type 0 where
  default_version :
      (k ≡ 0) ⊎ (p.parent_hash ≡ parent)
      → l ≡ record { hash = p.stored_hash; location = name }
      → IsVersion k parent name p l
  listed_version :
      (vs : List AdditionalVersion) (v : AdditionalVersion)
      → parse_additional_versions p.additional_versions ≡ ok vs
      → Member v vs
      → v.parent_hash ≡ parent
      → l ≡ record { hash = v.hash; location = v.location }
      → IsVersion k parent name p l

find_version-some :
    (parent : ℕ) (vs : List AdditionalVersion) (l : BlockLocation)
    → find_version parent vs ≡ some l
    → (v : AdditionalVersion) × Member v vs
      × (v.parent_hash ≡ parent)
      × (l ≡ record { hash = v.hash; location = v.location })
unfolding find_version
find_version-some parent [] l h = cc
find_version-some parent (v ∷ vs) l h = elim (Bool-cases (v.parent_hash == parent)) [
  | inl e ↦ (v, here, (==_iff _ _).0 e, ground arith)
  | inr e ↦ let (w, m, q, r) = find_version-some parent vs l (ground arith) in (w, there m, q, r)
]

find_version-nil : (parent : ℕ) → find_version parent [] ≡ none
unfolding find_version
find_version-nil parent = refl

find_version-none :
    (parent : ℕ) (vs : List AdditionalVersion) (v : AdditionalVersion)
    → find_version parent vs ≡ none
    → Member v vs
    → v.parent_hash ≢ parent
unfolding find_version
find_version-none parent [] w h m = elim m [ ]
find_version-none parent (v ∷ vs) w h here = ground arith
find_version-none parent (x ∷ vs) w h (there m) = find_version-none parent vs w (ground arith) m

abbrev listed : ℕ → Probe → Result (Option BlockLocation)
listed parent p =
    parse_additional_versions p.additional_versions >>= λ vs. ok (find_version parent vs)

choose_version-cases :
    (k parent : ℕ) (name : Bytes) (p : Probe) (l : BlockLocation)
    → choose_version k parent name p ≡ ok (some l)
    → (((k ≡ 0) ⊎ (p.parent_hash ≡ parent))
        × (l ≡ record { hash = p.stored_hash; location = name }))
      ⊎ (listed parent p ≡ ok (some l))
unfolding choose_version
choose_version-cases k parent name p l h = ground arith

pub choose_version-some :
    (k parent : ℕ) (name : Bytes) (p : Probe) (l : BlockLocation)
    → choose_version k parent name p ≡ ok (some l)
    → IsVersion k parent name p l
choose_version-some k parent name p l h = elim (choose_version-cases k parent name p l h) [
  | inl d ↦ default_version d.0 d.1
  | inr e ↦
      let (vs, parsed, f) = >>=-eq-ok (parse_additional_versions p.additional_versions) _ e in
      let (v, m, q, r) = find_version-some parent vs l (ground arith) in
      listed_version vs v parsed m q r
]

choose_version-none :
    (k parent : ℕ) (name : Bytes) (p : Probe)
    → choose_version k parent name p ≡ ok none
    → (k ≢ 0)
      × (p.parent_hash ≢ parent)
      × ((empty p.additional_versions ≡ true) ⊎ (listed parent p ≡ ok none))
unfolding choose_version
choose_version-none k parent name p h = (ground arith, ground arith, ground arith)

-- A blob without a list has no further version.
no_list : (text : Bytes) → empty text ≡ true → parse_additional_versions text ≡ ok []
unfolding parse_additional_versions
no_list [] h = refl
no_list (c ∷ text) h = cc

-- Where the choice is `none`, no version of the block fits.
pub choose_version_complete :
    (k parent : ℕ) (name : Bytes) (p : Probe) (l : BlockLocation)
    → choose_version k parent name p ≡ ok none
    → ¬ IsVersion k parent name p l
choose_version_complete k parent name p l h (default_version fit e) =
    let (a, b, _) = choose_version-none k parent name p h in ground arith
choose_version_complete k parent name p l h (listed_version vs v parsed m q r) =
    find_version-none parent vs v unlisted m q
  where
    unlisted : find_version parent vs ≡ none
    unlisted = elim (choose_version-none k parent name p h).2 [
      | inl e ↦ ground (arith, no_list p.additional_versions e, find_version-nil parent)
      | inr e ↦ ground arith
    ]
