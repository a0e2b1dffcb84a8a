-- ===== src/Resolver/Memory.antt =====
-- KVService/src/InMemoryAccountResolver.cpp: the resource name itself is the storage account's name. The
-- store's Initialize is an argument. Log lines are left out.
use kv_store_v.Base.{
  true, false, ◌||◌, ◌++◌, ◌≡◌, if◌then◌else◌, Option, none, some, Bytes, codes, empty, Dict,
  lookup, insert, arith, lookup-insert, equal_self,
}
use kv_store_v.Resolver.Account.{AccountInfo, empty_info}

pub record InMemoryAccountResolver (Store : Type 0) : Type 0 where
  pub url_scheme : Bytes
  pub blob_dns_suffix : Bytes
  pub stores : Dict Store
  pub last_error : Bytes

unfoldable pub get_store_key : Bytes → Bytes → Bytes
get_store_key resource_name container_name = resource_name ++ (codes "|" ++ container_name)

module _ {Store : Type 0} where
  unfoldable pub build_account_url : Bytes → InMemoryAccountResolver Store → Bytes
  build_account_url resource_name r =
      r.url_scheme ++ (codes "://" ++ (resource_name ++ r.blob_dns_suffix))

  unfoldable pub resolve_account_info :
      Bytes → Bytes → InMemoryAccountResolver Store → AccountInfo × InMemoryAccountResolver Store
  resolve_account_info resource_name container_name r =
      if empty resource_name
      then (
        record empty_info { error = codes "Resource name cannot be empty" },
        record r { last_error = codes "Resource name cannot be empty" },
      )
      else if empty container_name
      then (
        record empty_info { error = codes "Container name cannot be empty" },
        record r { last_error = codes "Container name cannot be empty" },
      )
      else (
        record empty_info {
          account_url = build_account_url resource_name r;
          container_name = container_name;
          success = true;
        },
        r,
      )

module _ {Store : Type 0} (initialize : Bytes → Bytes → Option Store) where
  unfoldable pub create_store :
      Bytes → Bytes → InMemoryAccountResolver Store → Option Store × InMemoryAccountResolver Store
  create_store account_url container_name r = elim (initialize account_url container_name) [
    | some store ↦ (some store, r)
    | none ↦ (
      none,
      record r {
        last_error =
            codes "Failed to initialize KV Store for account: "
            ++ (account_url ++ (codes ", container: " ++ container_name));
      },
    )
  ]

  -- From the second look into the cache on.
  unfoldable pub resolve_locked :
      Bytes → Bytes → InMemoryAccountResolver Store → Option Store × InMemoryAccountResolver Store
  resolve_locked resource_name container_name r =
      let key = get_store_key resource_name container_name in
      elim (lookup key r.stores) [
        | some store ↦ (some store, r)
        | none ↦
            let (made, r') = create_store (build_account_url resource_name r) container_name r in
            elim made [
              | none ↦ (none, r')
              | some store ↦ (some store, record r' { stores = insert key store r'.stores })
            ]
      ]

  -- `others` is what other calls make of the resolver before the write lock is taken.
  unfoldable pub resolve_store :
      (InMemoryAccountResolver Store → InMemoryAccountResolver Store)
      → Bytes
      → Bytes
      → InMemoryAccountResolver Store
      → Option Store × InMemoryAccountResolver Store
  resolve_store others resource_name container_name r =
      if empty resource_name || empty container_name
      then (none, record r { last_error = codes "Resource name and container name are required" })
      else elim (lookup (get_store_key resource_name container_name) r.stores) [
        | some store ↦ (some store, r)
        | none ↦ resolve_locked resource_name container_name (others r)
      ]

  locked_in_cache :
      (n c : Bytes) (r : InMemoryAccountResolver Store) (store : Store)
      → (resolve_locked n c r).0 ≡ some store
      → lookup (get_store_key n c) (resolve_locked n c r).1.stores ≡ some store
  unfolding resolve_locked create_store
  locked_in_cache n c r store h = ground (
    arith,
    h,
    lookup-insert (get_store_key n c) (get_store_key n c) store r.stores,
    equal_self (get_store_key n c),
  )

  in_cache :
      (others : InMemoryAccountResolver Store → InMemoryAccountResolver Store) (n c : Bytes)
      (r : InMemoryAccountResolver Store) (store : Store)
      → (resolve_store others n c r).0 ≡ some store
      → ((empty n || empty c) ≡ false)
        × (lookup (get_store_key n c) (resolve_store others n c r).1.stores ≡ some store)
  unfolding resolve_store
  in_cache others n c r store h = ground (arith, h, locked_in_cache n c (others r) store)

  hit :
      (others : InMemoryAccountResolver Store → InMemoryAccountResolver Store) (n c : Bytes)
      (r : InMemoryAccountResolver Store) (store : Store)
      → (empty n || empty c) ≡ false
      → lookup (get_store_key n c) r.stores ≡ some store
      → resolve_store others n c r ≡ (some store, r)
  unfolding resolve_store
  hit others n c r store named present = rw (named, present)

-- After a call that returned a store, every later call for the same resource and container returns the same
-- store and changes nothing.
pub memory_resolve_again :
    {Store : Type 0} (initialize initialize' : Bytes → Bytes → Option Store)
    (others others' : InMemoryAccountResolver Store → InMemoryAccountResolver Store) (n c : Bytes)
    (r : InMemoryAccountResolver Store) (store : Store)
    → (resolve_store initialize others n c r).0 ≡ some store
    → resolve_store initialize' others' n c (resolve_store initialize others n c r).1
      ≡ (some store, (resolve_store initialize others n c r).1)
memory_resolve_again initialize initialize' others others' n c r store h =
    let (named, present) = in_cache initialize others n c r store h in
    hit initialize' others' n c (resolve_store initialize others n c r).1 store named present
