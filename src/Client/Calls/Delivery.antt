-- ===== src/Client/Calls/Delivery.antt =====
-- How a reply of a reactor reaches the client, and what the client makes of it.
use kv_store_v.Base.{
  ℕ, ◌≡◌, refl, ap, ◌∙◌, Bool, true, false, not, ◌&&◌, [], ◌∷◌, Option, none, some, if◌then◌else◌,
  Bytes, codes, empty, Result, ok, throw, Exn,
}
use kv_store_v.Types.{PromptChunk}
use kv_store_v.Service.Messages.{ok_status, invalid_argument_status, internal_status, ProtoChunk}
use kv_store_v.Service.Unary.{Response, Reply, refuse, no_storage, succeed, answer}
use kv_store_v.Client.Calls.{Impl, RpcStatus, rpc_ok, rpc_failed, TimedResponse, ReadResult}

-- What gRPC documents of a unary call: the client's status is the one that Finish was called with, and with
-- OK it receives the response, which it reads by `view`.
pub record IsDelivered {Body Message : Type 0} (view : Response Body → Message) (reply : Reply Body)
    (call : RpcStatus × Message) : Type 0 where
  pub answered : reply.finished ≡ ok_status ∷ [] → call ≡ (rpc_ok, view reply.response)
  pub refused :
      (text : Bytes) → reply.finished ≡ invalid_argument_status text ∷ [] → call.0 ≡ rpc_failed text
  pub failed :
      (text : Bytes) → reply.finished ≡ internal_status text ∷ [] → call.0 ≡ rpc_failed text

abbrev pub value_or {ℓ} : {A : Type ℓ} → A → Result A → A
value_or default (ok a) = a
value_or default (throw e) = default

-- The reactors' checks, by their outcome: a name is missing, another field is missing, the store is there.
abbrev pub guarded :
    {A Body : Type 0}
    → (Exn → Bytes)
    → (A → Option Body)
    → ℕ
    → ℕ
    → Bytes
    → Bool
    → Bool
    → Bool
    → Bool
    → Result A
    → Reply Body
guarded what body storage_us total_us text no_resource no_container no_field resolved r =
    if no_resource
    then refuse (codes "resource_name is required")
    else if no_container
    then refuse (codes "container_name is required")
    else if no_field
    then refuse text
    else if not resolved
    then no_storage total_us
    else answer what body storage_us total_us r

module _ {A Body Message R : Type 0} (what : Exn → Bytes) (body : A → Option Body)
    (storage_us total_us : ℕ) (view : Response Body → Message) (read : RpcStatus × Message → R)
    (default : R) (fails : (text : Bytes) (m : Message) → read (rpc_failed text, m) ≡ default) where
  -- What the client makes of the outcome of the storage call.
  abbrev pub outcome : Result A → R
  outcome (ok a) = read (rpc_ok, view (succeed (body a) storage_us total_us).response)
  outcome (throw e) = default

  pub failed_call :
      (call : RpcStatus × Message) (text : Bytes) → call.0 ≡ rpc_failed text → read call ≡ default
  failed_call (status, m) text e = ap (λ (st : RpcStatus). read (st, m)) e ∙ fails text m

  pub answered_call :
      (r : Result A) (call : RpcStatus × Message)
      → IsDelivered view (answer what body storage_us total_us r) call
      → read call ≡ outcome r
  answered_call (ok a) call d = ap read (d.answered refl)
  answered_call (throw e) call d = failed_call call (what e) (d.failed (what e) refl)

  pub guarded_call :
      (text : Bytes) (no_resource no_container no_field resolved : Bool) (r : Result A)
      (call : RpcStatus × Message)
      → IsDelivered view
          (guarded what body storage_us total_us text no_resource no_container no_field resolved r)
          call
      → read call ≡ (
          if not no_resource && (not no_container && (not no_field && resolved))
          then outcome r
          else default)
  guarded_call text true c f s r call d = failed_call call _ (d.refused _ refl)
  guarded_call text false true f s r call d = failed_call call _ (d.refused _ refl)
  guarded_call text false false true s r call d = failed_call call _ (d.refused _ refl)
  guarded_call text false false false false r call d = failed_call call _ (d.failed _ refl)
  guarded_call text false false false true r call d = answered_call r call d

-- The client is initialised with names, the field that a call needs is there, and the store is resolved.
abbrev pub usable : Impl → Bool → Bool → Bool
usable self no_field resolved =
    self.initialized
    && (not (empty self.resource_name)
        && (not (empty self.container_name) && (not no_field && resolved)))

-- `f` of a call that a client which is not initialised answers by `z`.
pub initialized_call {ℓ κ} :
    (X : Type ℓ) {A : Type κ} (f : X → A) (b u : Bool) (a d : A) (x z : X)
    → f z ≡ d
    → f x ≡ (if u then a else d)
    → f (if not b then z else x) ≡ (if b && u then a else d)
initialized_call X f true u a d x z ez ex = ex
initialized_call X f false u a d x z ez ex = ez

-- The checks of a reactor that keeps a state: the state changes only behind all of them.
pub guarded_state {ℓ κ} :
    {R : Type ℓ} {S : Type κ} (a b c d : Bool) (x y z w v : R) (s s' : S)
    → ◌≡◌ {A = R × S}
        (if a
          then (x, s)
          else if b
          then (y, s)
          else if c
          then (z, s)
          else if not d
          then (w, s)
          else (v, s'))
        (
          (if a then x else if b then y else if c then z else if not d then w else v),
          (if not a && (not b && (not c && d)) then s' else s),
        )
guarded_state true b c d x y z w v s s' = refl
guarded_state false true c d x y z w v s s' = refl
guarded_state false false true d x y z w v s s' = refl
guarded_state false false false true x y z w v s s' = refl
guarded_state false false false false x y z w v s s' = refl

-- The messages of a Read call as the client reads them.
abbrev pub read_message : Response (Option ProtoChunk) → TimedResponse
read_message r = (
  record { success = r.success; found = found_in r.body; error = r.error; chunk = chunk_in r.body },
  r.server_metrics,
)
  where
    found_in : Option (Option ProtoChunk) → Bool
    found_in (some (some chunk)) = true
    found_in _ = false

    chunk_in : Option (Option ProtoChunk) → Option ProtoChunk
    chunk_in (some found) = found
    chunk_in none = none

abbrev pub seen : ReadResult → Bool × PromptChunk
seen (found, chunk, metrics) = (found, chunk)
