-- ===== src/Resolver/Cache.antt =====
-- What the cache of stores guarantees to the callers of ResolveStore.
pub mod Calls
use kv_store_v.Base.{
  ◌≡◌, ◌≢◌, refl, ap, ◌∙◌, subst, false, not, ◌||◌, [], ◌∷◌, ◌++◌, if-cases, Option, none, some,
  Bytes, codes, empty, arith, Dict, lookup, lookup-insert, equal_self, equal_iff, Lacks,
  Option-cases, Bool-cases, inl, inr,
}
use kv_store_v.Resolver.Database.{
  Resolver, World, get_store_key, initialize_config_store_client, download_account_config,
  fetch_account_config, get_storage_account_for_current_region, create_store, create_missing,
  cached_or, no_store, keep_store, resolve_locked, resolve_store, build_account_url,
}

-- Two requests share a cache entry only if they name the same resource and container, unless a resource
-- name has a bar in it.
pub get_store_key_injective :
    (r r' c c' : Bytes)
    → Lacks b'|' r
    → Lacks b'|' r'
    → get_store_key r c ≡ get_store_key r' c'
    → (r ≡ r') × (c ≡ c')
unfolding get_store_key
get_store_key_injective [] [] c c' h h' e = ground (arith, e)
get_store_key_injective [] (x ∷ r') c c' h h' e = ground (arith, e)
get_store_key_injective (x ∷ r) [] c c' h h' e = ground (arith, e)
get_store_key_injective (x ∷ r) (y ∷ r') c c' h h' e =
    ground (arith, e, get_store_key_injective r r' c c' h.1 h'.1)

module _ {Store : Type 0} (world : World Store) where
  fetch-stores :
      (n : Bytes) (r : Resolver Store) → (fetch_account_config world n r).1.stores ≡ r.stores
  unfolding fetch_account_config initialize_config_store_client download_account_config
  fetch-stores n r = ground arith

  -- A result of ResolveStore against the stores that were there before it.
  pub record IsOutcome (key : Bytes) (before : Dict Store) (result : Option Store × Resolver Store)
      : Type 0 where
    pub kept :
        (k : Bytes) (store : Store)
        → lookup k before ≡ some store
        → lookup k result.1.stores ≡ some store
    pub found : (store : Store) → result.0 ≡ some store → lookup key result.1.stores ≡ some store
    pub failed : result.0 ≡ none → (result.1.last_error ≢ []) × (result.1.stores ≡ before)

  no_store-IsOutcome :
      (key text : Bytes) (r : Resolver Store)
      → text ≢ []
      → IsOutcome key r.stores (no_store world text r)
  no_store-IsOutcome key text r h = record {
    kept = λ k store e. e;
    found = λ store e. cc;
    failed = λ e. (h, refl);
  }

  there-IsOutcome :
      (key : Bytes) (store : Store) (r : Resolver Store)
      → lookup key r.stores ≡ some store
      → IsOutcome key r.stores (some store, r)
  there-IsOutcome key store r h = record {
    kept = λ k s e. e;
    found = λ s e. ground (arith, h, e);
    failed = λ e. cc;
  }

  keep_store-IsOutcome :
      (key : Bytes) (url container : Bytes) (r : Resolver Store)
      → lookup key r.stores ≡ none
      → IsOutcome key r.stores (keep_store world key (create_store world url container r))
  unfolding create_store
  keep_store-IsOutcome key url container r absent = by_store (world.initialize url container)
    where
      by_store :
          (created : Option Store)
          → IsOutcome key r.stores (
              keep_store world key (elim created [
                | some store ↦ (some store, r)
                | none ↦
                    no_store world
                      (codes "Failed to initialize KV Store for account: "
                        ++ (url ++ (codes ", container: " ++ container)))
                      r
              ]))
      by_store none = record { kept = λ k s e. e; found = λ s e. cc; failed = λ e. (λ d. cc, refl) }
      by_store (some store) = record {
        kept =
            λ k s e. ground (arith, equal_iff key k, lookup-insert key k store r.stores, absent, e);
        found = λ s e. ground (arith, lookup-insert key key store r.stores, equal_self key, e);
        failed = λ e. cc;
      }

  create_missing-IsOutcome :
      (n c : Bytes) (r : Resolver Store)
      → lookup (get_store_key n c) r.stores ≡ none
      → IsOutcome (get_store_key n c) r.stores (create_missing world n c r)
  unfolding create_missing
  create_missing-IsOutcome n c r absent =
      let (config, r') = fetch_account_config world n r in
      let account = get_storage_account_for_current_region world config r' in
      let same = fetch-stores n r in
      subst
        (λ (before : Dict Store). IsOutcome (get_store_key n c) before (create_missing world n c r))
        same
        (if-cases (IsOutcome (get_store_key n c) r'.stores) (not config.success)
          (λ _. no_store-IsOutcome _ _ r' (λ d. cc))
          (λ _.
            if-cases (IsOutcome (get_store_key n c) r'.stores) (empty account)
              (λ _. no_store-IsOutcome _ _ r' (λ d. cc))
              (λ _.
                keep_store-IsOutcome (get_store_key n c) (build_account_url world account r') c r'
                  (ap (lookup (get_store_key n c)) same ∙ absent))))

  cached_or-IsOutcome :
      (key : Bytes) (o : Option Store) (r : Resolver Store)
      (missing : Option Store × Resolver Store)
      → lookup key r.stores ≡ o
      → (o ≡ none → IsOutcome key r.stores missing)
      → IsOutcome key r.stores (cached_or world o r missing)
  cached_or-IsOutcome key none r missing h next = next refl
  cached_or-IsOutcome key (some store) r missing h next = there-IsOutcome key store r h

  locked-IsOutcome :
      (n c : Bytes) (r : Resolver Store)
      → IsOutcome (get_store_key n c) r.stores (resolve_locked world n c r)
  unfolding resolve_locked
  locked-IsOutcome n c r =
      cached_or-IsOutcome (get_store_key n c) (lookup (get_store_key n c) r.stores) r _ refl
        (λ h. create_missing-IsOutcome n c r h)

  alone :
      (n c : Bytes) (r : Resolver Store)
      → IsOutcome (get_store_key n c) r.stores (resolve_store world (λ s. s) n c r)
  unfolding resolve_store
  alone n c r =
      if-cases (IsOutcome (get_store_key n c) r.stores) (empty n || empty c)
        (λ _. no_store-IsOutcome _ _ r (λ d. cc))
        (λ _.
          cached_or-IsOutcome (get_store_key n c) (lookup (get_store_key n c) r.stores) r _ refl
            (λ h. locked-IsOutcome n c r))

  -- If ResolveStore returns no store, then it has set an error and left the cache of stores as it was.
  pub resolve_store_error :
      (n c : Bytes) (r : Resolver Store)
      → (resolve_store world (λ s. s) n c r).0 ≡ none
      → ((resolve_store world (λ s. s) n c r).1.last_error ≢ [])
        × ((resolve_store world (λ s. s) n c r).1.stores ≡ r.stores)
  resolve_store_error n c r h = (alone n c r).failed h

  -- What a returned store says: the names are not empty, and the store is in the cache.
  returned :
      (others : Resolver Store → Resolver Store) (n c : Bytes) (r : Resolver Store) (store : Store)
      → (resolve_store world others n c r).0 ≡ some store
      → ((empty n || empty c) ≡ false)
        × (lookup (get_store_key n c) (resolve_store world others n c r).1.stores ≡ some store)
  unfolding resolve_store
  returned others n c r store h = elim (Bool-cases (empty n || empty c)) [
    | inl e ↦ ground (arith, e, h)
    | inr e ↦ elim (Option-cases (lookup (get_store_key n c) r.stores)) [
      | inl absent ↦ ground (arith, e, absent, h, (locked-IsOutcome n c (others r)).found store)
      | inr (there, present) ↦ ground (arith, e, present, h)
    ]
  ]

  hit :
      (others : Resolver Store → Resolver Store) (n c : Bytes) (r : Resolver Store) (store : Store)
      → (empty n || empty c) ≡ false
      → lookup (get_store_key n c) r.stores ≡ some store
      → resolve_store world others n c r ≡ (some store, r)
  unfolding resolve_store
  hit others n c r store named present = rw (named, present)

  miss :
      (others : Resolver Store → Resolver Store) (n c : Bytes) (r : Resolver Store)
      → (empty n || empty c) ≡ false
      → lookup (get_store_key n c) r.stores ≡ none
      → resolve_store world others n c r ≡ resolve_locked world n c (others r)
  unfolding resolve_store
  miss others n c r named absent = rw (named, absent)

  locked_hit :
      (n c : Bytes) (r : Resolver Store) (store : Store)
      → lookup (get_store_key n c) r.stores ≡ some store
      → resolve_locked world n c r ≡ (some store, r)
  unfolding resolve_locked
  locked_hit n c r store present = rw present

-- A caller that misses the cache and then waits for the lock while another one makes the same call gets the
-- store of the other one, and makes no second store.
pub resolve_store_race :
    {Store : Type 0} (world world' : World Store) (n c : Bytes) (r : Resolver Store) (store : Store)
    → lookup (get_store_key n c) r.stores ≡ none
    → (resolve_store world (λ s. s) n c r).0 ≡ some store
    → resolve_store world' (λ s. (resolve_store world (λ t. t) n c s).1) n c r
      ≡ (some store, (resolve_store world (λ s. s) n c r).1)
resolve_store_race world world' n c r store absent h =
    let (named, present) = returned world (λ s. s) n c r store h in
    miss world' (λ s. (resolve_store world (λ t. t) n c s).1) n c r named absent
    ∙ locked_hit world' n c (resolve_store world (λ s. s) n c r).1 store present
