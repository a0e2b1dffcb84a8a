-- ===== src/Store/Lookup/Chain.antt =====
-- What the chain that Lookup returns satisfies, stated without the loop.
use kv_store_v.Base.{
  ℕ, zero, suc, ◌+◌, ◌*◌, ◌/◌, ◌≤◌, ◌≡◌, refl, sym, subst, ap, take, drop, get_elem?, if◌then◌else◌,
  ◌∙◌, List, [], ◌∷◌, ◌++◌, append-nil, append_assoc, Option, none, some, arith, Bytes, length,
  Result, ok, ◌>>=◌, ◌==◌, >>=-eq-ok,
}
use mathlib.Core.Path.{fun_ext}
use kv_store_v.Types.{BlockLocation, LookupResult, no_blocks}
use kv_store_v.Blob.Name.{Base64Url, encode_tokens_to_blob_name}
use kv_store_v.Blob.Service.{BlobService, Properties}
use kv_store_v.Store.Lookup.{
  block_size, BlockInfo, Probe, prepare_blocks, probe_block, choose_found, add_location,
  next_location, follow_chain, lookup_tokens,
}
use kv_store_v.Store.Lookup.Choice.{IsVersion, choose_version-some, choose_version_complete}

-- The hash of the last location, or `h` where there is none.
abbrev pub last_of : ℕ → List BlockLocation → ℕ
last_of h [] = h
last_of h (l ∷ ls) = last_of l.hash ls

module _ (svc : BlobService) (replies : ℕ → Bytes → Result Properties) where
  -- Block `b` offers `l` at place `k` behind `parent`: its blob was found, and `l` is a version of it.
  abbrev pub Offers : ℕ → ℕ → BlockInfo → BlockLocation → Type 0
  Offers k parent b l =
      (p : Probe) × (probe_block svc (replies k b.blob_name) ≡ ok (some p))
      × IsVersion k parent b.blob_name p l

  -- The locations follow the blocks one by one, each behind the hash of the one before it.
  abbrev pub IsChain : List BlockInfo → ℕ → ℕ → List BlockLocation → Type 0
  IsChain blocks k parent [] = Unit
  IsChain [] k parent (l ∷ ls) = ⊥
  IsChain (b ∷ bs) k parent (l ∷ ls) = Offers k parent b l × IsChain bs (k + 1) l.hash ls

  -- The chain stops at the end of the blocks, or where the next block offers nothing.
  abbrev pub IsMaximal : List BlockInfo → ℕ → ℕ → List BlockLocation → Type 0
  IsMaximal [] k parent ls = Unit
  IsMaximal (b ∷ bs) k parent [] = (l : BlockLocation) → ¬ Offers k parent b l
  IsMaximal (b ∷ bs) k parent (l ∷ ls) = IsMaximal bs (k + 1) l.hash ls

  next_location-some :
      (k parent : ℕ) (b : BlockInfo) (l : BlockLocation)
      → next_location svc replies k parent b ≡ ok (some l)
      → Offers k parent b l
  unfolding next_location
  next_location-some k parent b l h =
      let (found, probed, chosen) = >>=-eq-ok (probe_block svc (replies k b.blob_name)) _ h in
      offered found probed chosen
    where
      offered :
          (found : Option Probe)
          → probe_block svc (replies k b.blob_name) ≡ ok found
          → choose_found k parent b.blob_name found ≡ ok (some l)
          → Offers k parent b l
      offered none probed chosen = cc
      offered (some p) probed chosen =
          (p, probed, choose_version-some k parent b.blob_name p l chosen)

  next_location-none :
      (k parent : ℕ) (b : BlockInfo)
      → next_location svc replies k parent b ≡ ok none
      → (l : BlockLocation) → ¬ Offers k parent b l
  unfolding next_location
  next_location-none k parent b h l (p, found, v) =
      choose_version_complete k parent b.blob_name p l (ground arith) v

  -- What the loop returns, in terms of the locations that it added.
  pub record Follows (blocks : List BlockInfo) (k parent : ℕ) (start result : LookupResult)
      (added : List BlockLocation) : Type 0 where
    pub chain : IsChain blocks k parent added
    pub maximal : IsMaximal blocks k parent added
    pub appended : result.locations ≡ start.locations ++ added
    pub counted : result.cached_blocks ≡ start.cached_blocks + length added
    pub last : result.last_hash ≡ last_of start.last_hash added
    pub bounded : length added ≤ length blocks

  stop :
      (blocks : List BlockInfo) (k parent : ℕ) (start result : LookupResult)
      → start ≡ result
      → IsMaximal blocks k parent []
      → Follows blocks k parent start result []
  stop blocks k parent start result e m = record {
    chain = tt;
    maximal = m;
    appended = ground (arith, append-nil start.locations);
    counted = ground arith;
    last = ground arith;
    bounded = omega arith;
  }

  extend :
      (b : BlockInfo) (bs : List BlockInfo) (k parent : ℕ) (start result : LookupResult)
      (l : BlockLocation) (added : List BlockLocation)
      → Offers k parent b l
      → Follows bs (k + 1) l.hash (add_location start l) result added
      → Follows (b ∷ bs) k parent start result (l ∷ added)
  extend b bs k parent start result l added o f = record {
    chain = (o, f.chain);
    maximal = f.maximal;
    appended = f.appended ∙ append_assoc start.locations (l ∷ []) added;
    counted = omega (arith, f.counted);
    last = f.last;
    bounded = omega (arith, f.bounded);
  }

  pub follow_chain-Follows :
      (blocks : List BlockInfo) (k parent : ℕ) (start result : LookupResult)
      → follow_chain svc replies blocks k parent start ≡ ok result
      → (added : List BlockLocation) × Follows blocks k parent start result added
  unfolding follow_chain
  follow_chain-Follows [] k parent start result h =
      ([], stop [] k parent start result (ground arith) tt)
  follow_chain-Follows (b ∷ bs) k parent start result h =
      let (next, e, rest) = >>=-eq-ok (next_location svc replies k parent b) _ h in
      by_next (follow_chain-Follows bs) next e rest
    where
      by_next :
          ((k' parent' : ℕ) (start' result' : LookupResult)
            → follow_chain svc replies bs k' parent' start' ≡ ok result'
            → (added : List BlockLocation) × Follows bs k' parent' start' result' added)
          → (next : Option BlockLocation) → next_location svc replies k parent b ≡ ok next
          → elim next [
            | none ↦ ok start
            | some l ↦ follow_chain svc replies bs (k + 1) l.hash (add_location start l)
          ]
            ≡ ok result
          → (added : List BlockLocation) × Follows (b ∷ bs) k parent start result added
      by_next ih none e rest =
          ([], stop (b ∷ bs) k parent start result (ground arith) (next_location-none k parent b e))
      by_next ih (some l) e rest =
          let (added, f) = ih (k + 1) l.hash (add_location start l) result rest in
          (
            l ∷ added,
            extend b bs k parent start result l added (next_location-some k parent b l e) f,
          )

length-prepare_blocks :
    (base64 : Base64Url) (tokens hashes : List ℕ) (n i : ℕ)
    → length (prepare_blocks base64 tokens hashes n i) ≡ n
unfolding prepare_blocks
length-prepare_blocks base64 tokens hashes zero i = refl
length-prepare_blocks base64 tokens hashes (suc n) i =
    ap suc (length-prepare_blocks base64 tokens hashes n (i + 1))

by_count :
    (svc : BlobService) (replies : ℕ → Bytes → Result Properties) (base64 : Base64Url)
    (tokens hashes : List ℕ) (n : ℕ)
    → (if n == 0
        then ok no_blocks
        else follow_chain svc replies (prepare_blocks base64 tokens hashes n 0) 0 0 no_blocks)
      ≡ follow_chain svc replies (prepare_blocks base64 tokens hashes n 0) 0 0 no_blocks
by_count svc replies base64 tokens hashes zero = unfold follow_chain prepare_blocks in refl
by_count svc replies base64 tokens hashes (suc n) = ground arith

-- The loop reads only the blob names of the blocks.
follow_chain-hashes :
    (svc : BlobService) (replies : ℕ → Bytes → Result Properties) (base64 : Base64Url)
    (tokens hashes hashes' : List ℕ) (n i k parent : ℕ) (start : LookupResult)
    → follow_chain svc replies (prepare_blocks base64 tokens hashes n i) k parent start
      ≡ follow_chain svc replies (prepare_blocks base64 tokens hashes' n i) k parent start
unfolding follow_chain prepare_blocks next_location
follow_chain-hashes svc replies base64 tokens hashes hashes' zero i k parent start = refl
follow_chain-hashes svc replies base64 tokens hashes hashes' (suc n) i k parent start =
    ap (λ f. next_location svc replies k parent (block hashes) >>= f)
      (fun_ext
        (continue_with (follow_chain-hashes svc replies base64 tokens hashes hashes' n (i + 1))))
  where
    block : List ℕ → BlockInfo
    block hs = record {
      blob_name =
          encode_tokens_to_blob_name base64 (take block_size (drop (i * block_size) tokens));
      expected_hash = elim (get_elem? hs i) [ none ↦ 0 | some h ↦ h ];
    }

    go_on : List ℕ → Option BlockLocation → Result LookupResult
    go_on hs = elim [
      | none ↦ ok start
      | some l ↦
          follow_chain svc replies (prepare_blocks base64 tokens hs n (i + 1)) (k + 1) l.hash
            (add_location start l)
    ]

    continue_with :
        ((k' parent' : ℕ) (start' : LookupResult)
          → follow_chain svc replies
              (prepare_blocks base64 tokens hashes n (i + 1))
              k'
              parent'
              start'
            ≡ follow_chain svc replies
                (prepare_blocks base64 tokens hashes' n (i + 1))
                k'
                parent'
                start')
        → (next : Option BlockLocation) → go_on hashes next ≡ go_on hashes' next
    continue_with ih none = refl
    continue_with ih (some l) = ih (k + 1) l.hash (add_location start l)

-- For every order of replies, a lookup that returns gives a chain: location i is a version of block i
-- (the i-th 128 tokens) whose parent is the hash of location i - 1, with any parent allowed for the
-- default version at i = 0. The chain is maximal: it stops at the last full block or where no version
-- of the next block fits. The counters agree with the list and stay within the full blocks.
pub lookup_tokens-IsChain :
    (svc : BlobService) (replies : ℕ → Bytes → Result Properties) (base64 : Base64Url)
    (tokens hashes : List ℕ) (r : LookupResult)
    → lookup_tokens svc replies base64 tokens hashes ≡ ok r
    → let blocks = prepare_blocks base64 tokens hashes (length tokens / block_size) 0 in
      IsChain svc replies blocks 0 0 r.locations
      × IsMaximal svc replies blocks 0 0 r.locations
      × (r.cached_blocks ≡ length r.locations)
      × (r.last_hash ≡ last_of 0 r.locations)
      × (r.cached_blocks ≤ length tokens / block_size)
unfolding lookup_tokens
lookup_tokens-IsChain svc replies base64 tokens hashes r h =
    let n = length tokens / block_size in
    let blocks = prepare_blocks base64 tokens hashes n 0 in
    let (added, f) =
      follow_chain-Follows svc replies blocks 0 0 no_blocks r
        (sym (by_count svc replies base64 tokens hashes n) ∙ h) in
    subst
      (λ (ls : List BlockLocation).
        IsChain svc replies blocks 0 0 ls
        × IsMaximal svc replies blocks 0 0 ls
        × (r.cached_blocks ≡ length ls)
        × (r.last_hash ≡ last_of 0 ls)
        × (r.cached_blocks ≤ n))
      (sym f.appended)
      (
        f.chain,
        f.maximal,
        omega (arith, f.counted),
        f.last,
        omega (arith, f.counted, f.bounded, length-prepare_blocks base64 tokens hashes n 0),
      )

-- The precomputed hashes that a client sends never change the result.
pub lookup_tokens-hashes :
    (svc : BlobService) (replies : ℕ → Bytes → Result Properties) (base64 : Base64Url)
    (tokens hashes hashes' : List ℕ)
    → lookup_tokens svc replies base64 tokens hashes
      ≡ lookup_tokens svc replies base64 tokens hashes'
unfolding lookup_tokens
lookup_tokens-hashes svc replies base64 tokens hashes hashes' =
    let n = length tokens / block_size in
    rw (follow_chain-hashes svc replies base64 tokens hashes hashes' n 0 0 0 no_blocks)
