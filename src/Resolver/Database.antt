-- ===== src/Resolver/Database.antt =====
-- KVService/src/StorageDatabaseResolver.cpp and KVService/include/StorageDatabaseResolver.h: resolves a
-- resource by its account configuration, a JSON blob in the configuration store. What the SDK, the disk
-- of accounts and the store's Initialize answer is an argument of each call. Log lines are left out.
use kv_store_v.Base.{
  ℕ, Bool, true, false, not, ◌||◌, [], ◌∷◌, ◌++◌, if◌then◌else◌, Option, none, some, Bytes, codes,
  empty, Dict, lookup, insert, Result, ok, throw, Exn, storage_exception, conflict,
  precondition_failed, other_status, Status, to_string, invalid_argument, out_of_range,
  runtime_error,
}
use kv_store_v.Config.{ServiceConfig, is_valid, get_validation_error}
use kv_store_v.Resolver.Account.{
  PromptAccountConfig, AccountInfo, empty_account, empty_info, parse_account_config_json,
}

-- What is outside of the resolver: `connect` makes the configuration store's client, `fetch` downloads a
-- blob of it, `initialize` is the new store's Initialize (the store that a success makes is the argument
-- `Store`), and `what` is e.what().
pub record World (Store : Type 0) : Type 0 where
  pub connect : Bytes → Bytes → Result (Unit {0})
  pub fetch : Bytes → Result Bytes
  pub initialize : Bytes → Bytes → Option Store
  pub what : Exn → Bytes

pub record Resolver (Store : Type 0) : Type 0 where
  pub url_scheme : Bytes
  pub service_config : ServiceConfig
  pub config_store_initialized : Bool
  pub account_config_cache : Dict PromptAccountConfig
  pub stores : Dict Store
  pub last_error : Bytes

abbrev pub status_code : Status → ℕ
status_code conflict = 409
status_code precondition_failed = 412
status_code (other_status n) = n

-- What the handler for RequestFailedException writes behind e.what().
abbrev pub status_text : Exn → Bytes
status_text (storage_exception status) =
    codes " (Status: " ++ (to_string (status_code status) ++ codes ")")
status_text invalid_argument = []
status_text out_of_range = []
status_text (runtime_error text) = []

unfoldable pub get_store_key : Bytes → Bytes → Bytes
get_store_key resource_name container_name = resource_name ++ (codes "|" ++ container_name)

module _ {Store : Type 0} (world : World Store) where
  open world use {connect, fetch, initialize, what}

  unfoldable pub initialize_config_store_client : Resolver Store → Bool × Resolver Store
  initialize_config_store_client r =
      if r.config_store_initialized
      then (true, r)
      else if not (is_valid r.service_config)
      then (
        false,
        record r {
          last_error =
              codes "Invalid service configuration: " ++ get_validation_error r.service_config;
        },
      )
      else elim (connect
          (r.url_scheme
            ++ (codes "://"
                ++ (r.service_config.configuration_store ++ r.service_config.domain_suffix)))
          r.service_config.configuration_container) [
            | ok _ ↦ (true, record r { config_store_initialized = true })
            | throw e ↦ (
              false,
              record r {
                last_error = codes "Failed to initialize config store client: " ++ what e;
              },
            )
          ]

  -- The `try`: a successful configuration enters the cache.
  unfoldable pub download_account_config :
      Bytes → Resolver Store → PromptAccountConfig × Resolver Store
  download_account_config resource_name r = elim (fetch (resource_name ++ codes ".json")) [
    | throw e ↦ (
      record empty_account {
        error =
            codes "Failed to fetch account config for '"
            ++ (resource_name ++ (codes "': " ++ (what e ++ status_text e)));
      },
      r,
    )
    | ok content ↦
        let config = parse_account_config_json content in
        if config.success
        then (
          config,
          record r { account_config_cache = insert resource_name config r.account_config_cache },
        )
        else (config, r)
  ]

  unfoldable pub fetch_account_config :
      Bytes → Resolver Store → PromptAccountConfig × Resolver Store
  fetch_account_config resource_name r = elim (lookup resource_name r.account_config_cache) [
    | some config ↦ (config, r)
    | none ↦
        let (ready, r') =
          if r.config_store_initialized then (true, r) else initialize_config_store_client r in
        if not ready
        then (
          record empty_account { error = codes "Config store not initialized: " ++ r'.last_error },
          r',
        )
        else download_account_config resource_name r'
  ]

  -- The empty text where there is none.
  unfoldable pub get_storage_account_for_current_region :
      PromptAccountConfig → Resolver Store → Bytes
  get_storage_account_for_current_region config r =
      elim (lookup r.service_config.current_location config.region_storage_map) [
        | none ↦ []
        | some accounts ↦ elim accounts [ [] ↦ [] | account ∷ others ↦ account ]
      ]

  unfoldable pub build_account_url : Bytes → Resolver Store → Bytes
  build_account_url storage_account_name r =
      r.url_scheme ++ (codes "://" ++ (storage_account_name ++ r.service_config.domain_suffix))

  abbrev pub fail_info : Bytes → Resolver Store → AccountInfo × Resolver Store
  fail_info text r = (record empty_info { error = text }, record r { last_error = text })

  unfoldable pub resolve_account_info :
      Bytes → Bytes → Resolver Store → AccountInfo × Resolver Store
  resolve_account_info resource_name container_name r =
      if empty resource_name
      then fail_info (codes "Resource name cannot be empty") r
      else if empty container_name
      then fail_info (codes "Container name cannot be empty") r
      else (let (config, r') = fetch_account_config resource_name r in
          let account = get_storage_account_for_current_region config r' in
          if not config.success
          then fail_info config.error r'
          else if empty account
          then fail_info
              (codes "No storage account found for current region: "
                ++ r'.service_config.current_location)
              r'
          else (
            record empty_info {
              account_url = build_account_url account r';
              container_name = container_name;
              success = true;
            },
            r',
          ))

  abbrev pub no_store : Bytes → Resolver Store → Option Store × Resolver Store
  no_store text r = (none, record r { last_error = text })

  unfoldable pub create_store : Bytes → Bytes → Resolver Store → Option Store × Resolver Store
  create_store account_url container_name r = elim (initialize account_url container_name) [
    | some store ↦ (some store, r)
    | none ↦
        no_store
          (codes "Failed to initialize KV Store for account: "
            ++ (account_url ++ (codes ", container: " ++ container_name)))
          r
  ]

  -- A new store enters the cache.
  abbrev pub keep_store : Bytes → Option Store × Resolver Store → Option Store × Resolver Store
  keep_store key (none, r) = (none, r)
  keep_store key (some store, r) = (some store, record r { stores = insert key store r.stores })

  -- From the double check on: fetch the account's configuration and create the store.
  unfoldable pub create_missing : Bytes → Bytes → Resolver Store → Option Store × Resolver Store
  create_missing resource_name container_name r =
      let (config, r') = fetch_account_config resource_name r in
      let account = get_storage_account_for_current_region config r' in
      if not config.success
      then no_store (codes "Failed to fetch account config: " ++ config.error) r'
      else if empty account
      then no_store
          (codes "No storage account found for region: " ++ r'.service_config.current_location) r'
      else keep_store (get_store_key resource_name container_name)
          (create_store (build_account_url account r') container_name r')

  -- A store that is found is returned.
  abbrev pub cached_or :
      Option Store → Resolver Store → Option Store × Resolver Store → Option Store × Resolver Store
  cached_or (some store) r missing = (some store, r)
  cached_or none r missing = missing

  -- The work under the write lock, which looks into the cache again.
  unfoldable pub resolve_locked : Bytes → Bytes → Resolver Store → Option Store × Resolver Store
  resolve_locked resource_name container_name r =
      cached_or (lookup (get_store_key resource_name container_name) r.stores) r
        (create_missing resource_name container_name r)

  -- Between the look under the read lock and the write lock other calls may run: `others` is what they
  -- make of the resolver.
  unfoldable pub resolve_store :
      (Resolver Store → Resolver Store)
      → Bytes
      → Bytes
      → Resolver Store
      → Option Store × Resolver Store
  resolve_store others resource_name container_name r =
      if empty resource_name || empty container_name
      then no_store (codes "Resource name and container name are required") r
      else cached_or (lookup (get_store_key resource_name container_name) r.stores) r
          (resolve_locked resource_name container_name (others r))
