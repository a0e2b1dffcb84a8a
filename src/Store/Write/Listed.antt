-- ===== src/Store/Write/Listed.antt =====
-- The metadata of a block with two versions.
use kv_store_v.Base.{
  ℕ, ◌<◌, ◌≡◌, ◌≢◌, refl, sym, ap, ◌∙◌, false, Bool-cases, inl, inr, [], ◌∷◌, arith, Bytes, codes,
  equal, equal_sound, ok, Result, word, to_string, stoull-to_string, stoull, lookup, insert,
}
use kv_store_v.Types.{PromptChunk}
use kv_store_v.Blob.Service.{Metadata}
use kv_store_v.Store.Write.{chunk_metadata, to_dict, touch, same_version, present_versions}

-- The metadata of the first version's blob once a list stands in it.
abbrev pub listed_metadata : PromptChunk → Bytes → Bytes → Metadata
listed_metadata first name versions =
    (codes "location", name)
    ∷ (codes "parenthash", to_string first.parent_hash)
    ∷ (codes "hash", to_string first.hash)
    ∷ (codes "additionalversions", versions)
    ∷ []

pub published :
    (first : PromptChunk) (name versions : Bytes)
    → touch (codes "parenthash") (
        touch
          (codes "hash")
          (insert (codes "additionalversions") versions (to_dict (chunk_metadata first name))))
      ≡ listed_metadata first name versions
unfolding touch lookup insert to_dict equal
published first name versions = refl

pub no_list :
    (first : PromptChunk) (name : Bytes)
    → present_versions (lookup (codes "additionalversions") (to_dict (chunk_metadata first name)))
      ≡ ok []
unfolding present_versions lookup insert to_dict equal
no_list first name = refl

to_string-apart :
    (m n : ℕ) → m < word → n < word → m ≢ n → equal (to_string m) (to_string n) ≡ false
to_string-apart m n hm hn apart = elim (Bool-cases (equal (to_string m) (to_string n))) [
  | inl same ↦ absurd (
      apart (
        injective (
          sym (stoull-to_string m hm)
          ∙ (ap stoull (equal_sound _ _ same) ∙ stoull-to_string n hn))))
  | inr differ ↦ differ
]
  where
    injective : {a b : ℕ} → ◌≡◌ {A = Result ℕ} (ok a) (ok b) → a ≡ b
    injective e = cc

pub other_version :
    (first second : PromptChunk) (name : Bytes)
    → first.parent_hash < word
    → second.parent_hash < word
    → first.parent_hash ≢ second.parent_hash
    → same_version second (to_dict (chunk_metadata first name)) ≡ false
unfolding same_version lookup insert to_dict equal
other_version first second name hf hs apart =
    ground (arith, to_string-apart first.parent_hash second.parent_hash hf hs apart)
