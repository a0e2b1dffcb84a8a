-- ===== src/Resolver/Cache/Calls.antt =====
-- Calls of ResolveStore one after the other and between each other's locks.
use kv_store_v.Base.{◌≡◌, ◌||◌, some, Bytes, empty, lookup, Option-cases, Bool-cases, inl, inr}
use kv_store_v.Resolver.Database.{Resolver, World, get_store_key, resolve_store}
use kv_store_v.Resolver.Cache.{returned, hit, locked-IsOutcome}

-- Calls in the order of their ends, each with the resource, the container, what the outside answers it, and the
-- calls that others complete between its read lock and its write lock.
pub data Calls (Store : Type 0) : Type 1 where
  no_call : Calls Store
  call : World Store → Bytes → Bytes → Calls Store → Calls Store → Calls Store

-- The resolver after the calls.
abbrev pub run : {Store : Type 0} → Calls Store → Resolver Store → Resolver Store
run no_call r = r
run (call world n c between rest) r = run rest (resolve_store world (run between) n c r).1

module _ {Store : Type 0} where
  resolve_store-keeps :
      (world : World Store) (others : Resolver Store → Resolver Store) (n c k : Bytes)
      (r : Resolver Store) (store : Store)
      → lookup k r.stores ≡ some store
      → lookup k (others r).stores ≡ some store
      → lookup k (resolve_store world others n c r).1.stores ≡ some store
  unfolding resolve_store
  resolve_store-keeps world others n c k r store there after =
      elim (Bool-cases (empty n || empty c)) [
        | inl e ↦ rw e there
        | inr e ↦ elim (Option-cases (lookup (get_store_key n c) r.stores)) [
          | inl absent ↦ rw (e, absent) ((locked-IsOutcome world n c (others r)).kept k store after)
          | inr (found, present) ↦ rw (e, present) there
        ]
      ]

  run-keeps :
      (calls : Calls Store) (k : Bytes) (r : Resolver Store) (store : Store)
      → lookup k r.stores ≡ some store
      → lookup k (run calls r).stores ≡ some store
  run-keeps no_call k r store there = there
  run-keeps (call world n c between rest) k r store there =
      run-keeps rest k (resolve_store world (run between) n c r).1 store (
        resolve_store-keeps world (run between) n c k r store there
          (run-keeps between k r store there))

-- After a call that returned a store, a later call for the same resource and container returns the same
-- store and changes nothing: after any calls for any resources, which others' calls may interleave, and whatever
-- the configuration store and the SDK answer by then.
pub resolve_store_again :
    {Store : Type 0} (world world' : World Store) (others others' : Resolver Store → Resolver Store)
    (n c : Bytes) (later : Calls Store) (r : Resolver Store) (store : Store)
    → (resolve_store world others n c r).0 ≡ some store
    → resolve_store world' others' n c (run later (resolve_store world others n c r).1)
      ≡ (some store, run later (resolve_store world others n c r).1)
resolve_store_again world world' others others' n c later r store h =
    let (named, present) = returned world others n c r store h in
    hit world' others' n c _ store named
      (run-keeps later (get_store_key n c) (resolve_store world others n c r).1 store present)
