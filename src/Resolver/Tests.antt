-- ===== src/Resolver/Tests.antt =====
-- The resolvers' theorems at concrete inputs.
use kv_store_v.Base.{
  ℕ, ◌≡◌, ◌≢◌, refl, true, false, [], ◌∷◌, Option, none, some, Bytes, codes, arith, All, lookup,
  insert, ok, equal,
}
use kv_store_v.Config.{is_valid}
use kv_store_v.Resolver.Account.{parse_account_config_json}
use kv_store_v.Resolver.Database.{
  Resolver, World, get_store_key, resolve_store, resolve_locked, create_missing, create_store,
  fetch_account_config, download_account_config, initialize_config_store_client,
  get_storage_account_for_current_region,
}
use kv_store_v.Resolver.Json.{
  extract_region_storage_map, map_content, regions, region_at, add_region,
}
use kv_store_v.Resolver.Memory.{InMemoryAccountResolver, memory_resolve_again}
use kv_store_v.Resolver.Memory as Memory
use kv_store_v.Resolver.Regions.{IsServed, parse_account_config_json-IsServed}
use kv_store_v.Resolver.Cache.{get_store_key_injective, resolve_store_error, resolve_store_race}
use kv_store_v.Resolver.Cache.Calls.{Calls, no_call, call, run, resolve_store_again}

abbrev json : Bytes
json = codes "{\"kind\":\"k\",\"regionStorageMap\":{\"eastus\":[\"acc1\",\"acc2\"],\"x\":[]}}"

-- Every account has this configuration; the stores are numbered by nothing but their being made.
abbrev world : World ℕ
world = record {
  connect = λ url container. ok tt;
  fetch = λ name. ok json;
  initialize = λ url container. some 7;
  what = λ e. [];
}

abbrev fresh : Resolver ℕ
fresh = record {
  url_scheme = codes "https";
  service_config = record {
    current_location = codes "eastus";
    configuration_store = codes "cfg";
    configuration_container = codes "accounts";
    domain_suffix = codes ".net";
  };
  config_store_initialized = false;
  account_config_cache = [];
  stores = (get_store_key (codes "other") (codes "c"), 3) ∷ [];
  last_error = [];
}

parsed : (parse_account_config_json json).success ≡ true
unfolding parse_account_config_json extract_region_storage_map map_content regions region_at
    add_region insert
parsed = refl

parse_account_config_json-IsServed_example :
    ((parse_account_config_json json).region_storage_map ≢ [])
    × All IsServed (parse_account_config_json json).region_storage_map
parse_account_config_json-IsServed_example = parse_account_config_json-IsServed json parsed

resolved : (resolve_store world (λ s. s) (codes "r") (codes "c") fresh).0 ≡ some 7
unfolding resolve_store resolve_locked lookup equal get_store_key create_missing
    fetch_account_config initialize_config_store_client is_valid download_account_config
    parse_account_config_json extract_region_storage_map map_content regions region_at add_region
    insert get_storage_account_for_current_region create_store
resolved = refl

unresolved : (resolve_store world (λ s. s) [] (codes "c") fresh).0 ≡ none
unfolding resolve_store
unresolved = refl

absent : lookup (get_store_key (codes "r") (codes "c")) fresh.stores ≡ none
unfolding lookup get_store_key equal
absent = refl

present : lookup (get_store_key (codes "other") (codes "c")) fresh.stores ≡ some 3
unfolding lookup get_store_key equal
present = refl

get_store_key_injective_example : (codes "r" ≡ codes "r") × (codes "c|d" ≡ codes "c|d")
get_store_key_injective_example =
    get_store_key_injective (codes "r") (codes "r") (codes "c|d") (codes "c|d") (ground arith)
      (ground arith) refl

resolve_store_error_example :
    ((resolve_store world (λ s. s) [] (codes "c") fresh).1.last_error ≢ [])
    × ((resolve_store world (λ s. s) [] (codes "c") fresh).1.stores ≡ fresh.stores)
resolve_store_error_example = resolve_store_error world [] (codes "c") fresh unresolved

-- A call for another container, and between its locks one for the same.
abbrev later : Calls ℕ
later =
    call world (codes "r") (codes "d") (call world (codes "r") (codes "c") no_call no_call) no_call

resolve_store_again_example :
    resolve_store world
      (λ s. s)
      (codes "r")
      (codes "c")
      (run later (resolve_store world (λ s. s) (codes "r") (codes "c") fresh).1)
    ≡ (some 7, run later (resolve_store world (λ s. s) (codes "r") (codes "c") fresh).1)
resolve_store_again_example =
    resolve_store_again world world (λ s. s) (λ s. s) (codes "r") (codes "c") later fresh 7 resolved

resolve_store_race_example :
    resolve_store world
      (λ s. (resolve_store world (λ t. t) (codes "r") (codes "c") s).1)
      (codes "r")
      (codes "c")
      fresh
    ≡ (some 7, (resolve_store world (λ s. s) (codes "r") (codes "c") fresh).1)
resolve_store_race_example =
    resolve_store_race world world (codes "r") (codes "c") fresh 7 absent resolved

abbrev in_memory : InMemoryAccountResolver ℕ
in_memory = record {
  url_scheme = codes "https";
  blob_dns_suffix = codes ".net";
  stores = [];
  last_error = [];
}

abbrev initialize : Bytes → Bytes → Option ℕ
initialize url container = some 5

made : (Memory.resolve_store initialize (λ s. s) (codes "r") (codes "c") in_memory).0 ≡ some 5
unfolding Memory.resolve_store lookup Memory.resolve_locked Memory.create_store
made = refl
