-- ===== src/Resolver/Regions.antt =====
-- An account configuration that is parsed successfully has regions, each with at least one account.
use kv_store_v.Base.{
  subst, ℕ, zero, suc, ◌≡◌, ◌≢◌, refl, true, false, List, [], ◌∷◌, if-cases, Option, none, some,
  Bytes, empty, arith, All, Dict, insert, equal, inl, inr, length, Bool-cases,
}
use kv_store_v.Resolver.Json.{
  regions, region_at, add_region, map_content, parse_regions, extract_region_storage_map,
}
use kv_store_v.Resolver.Account.{PromptAccountConfig, with_regions, parse_account_config_json}

abbrev pub IsServed : Bytes × List Bytes → Type 0
IsServed (region, accounts) = accounts ≢ []

insert-All :
    (k : Bytes) (v : List Bytes) (m : Dict (List Bytes))
    → v ≢ []
    → All IsServed m
    → All IsServed (insert k v m)
unfolding insert
insert-All k v [] h hs = (h, tt)
insert-All k v ((j, w) ∷ m) h hs =
    if-cases (All IsServed) (equal j k) (λ _. (h, hs.1)) (λ _. (hs.0, insert-All k v m h hs.1))

add_region-All :
    (k : Bytes) (v : List Bytes) (m : Dict (List Bytes))
    → All IsServed m
    → All IsServed (add_region k v m)
unfolding add_region
add_region-All k v m h =
    if-cases (All IsServed) (empty v) (λ _. h)
      (λ some_account. insert-All k v m (λ e. ground (arith, some_account, e)) h)

regions-All :
    (fuel : ℕ) (content : Bytes) (pos : ℕ) (m : Dict (List Bytes))
    → All IsServed m
    → All IsServed (regions fuel content pos m)
unfolding regions
regions-All zero content pos m h = h
regions-All (suc fuel) content pos m h = next (regions-All fuel content) (region_at content pos)
  where
    next :
        ((i : ℕ) (n : Dict (List Bytes)) → All IsServed n → All IsServed (regions fuel content i n))
        → (o : Option (Bytes × List Bytes × ℕ))
        → All IsServed (elim o [
          | none ↦ m
          | some region ↦ regions fuel content region.2 (add_region region.0 region.1 m)
        ])
    next ih none = h
    next ih (some (name, accounts, i)) =
        ih i (add_region name accounts m) (add_region-All name accounts m h)

parse_regions-All :
    (content : Option Bytes) (m : Dict (List Bytes))
    → parse_regions content ≡ some m
    → All IsServed m
parse_regions-All none m h = cc
parse_regions-All (some content) m h = elim (Bool-cases (empty found)) [
  | inl e ↦ ground (arith, e, h)
  | inr e ↦
      subst (All IsServed) (ground (arith, e, h)) (regions-All (length content) content 0 [] tt)
]
  where
    found : Dict (List Bytes)
    found = regions (length content) content 0 []

with_regions-IsServed :
    (o : Option (Dict (List Bytes))) (config : PromptAccountConfig)
    → config.success ≡ false
    → ((m : Dict (List Bytes)) → o ≡ some m → All IsServed m)
    → (with_regions o config).success ≡ true
    → ((with_regions o config).region_storage_map ≢ [])
      × All IsServed (with_regions o config).region_storage_map
with_regions-IsServed none config f served h = ground (arith, f, h)
with_regions-IsServed (some []) config f served h = ground (arith, f, h)
with_regions-IsServed (some (region ∷ m)) config f served h = (λ e. cc, served (region ∷ m) refl)

-- A configuration that is parsed successfully lists a region, and at least one account for each: the branch
-- of the resolver for an empty list of accounts is not reached.
pub parse_account_config_json-IsServed :
    (json : Bytes)
    → (parse_account_config_json json).success ≡ true
    → ((parse_account_config_json json).region_storage_map ≢ [])
      × All IsServed (parse_account_config_json json).region_storage_map
unfolding parse_account_config_json extract_region_storage_map
parse_account_config_json-IsServed json h =
    with_regions-IsServed (extract_region_storage_map json) _ refl
      (parse_regions-All (map_content json)) h
