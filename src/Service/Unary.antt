-- ===== src/Service/Unary.antt =====
-- KVService/src/reactors/LookupReactor.cpp, ReadReactor.cpp and WriteReactor.cpp: the unary calls. A reactor
-- gives its response and the arguments of its calls to Finish. Arguments are whether ResolveStore gave a
-- store, the container's state, and the two elapsed times in microseconds; `what` is e.what(). With NDEBUG,
-- a write that ends in `assert(false)` returns to the reactor.
pub mod Outcome
pub mod Written
pub mod EndToEnd
mod Tests
use kv_store_v.Base.{
  ℕ, ◌-◌, Bool, true, false, not, List, [], ◌∷◌, Option, none, some, if◌then◌else◌, Bytes, codes,
  empty, length, Result, ok, throw, Exn,
}
use kv_store_v.Types.{PromptChunk, BlockLocation, LookupResult}
use kv_store_v.Blob.Name.{Base64Url}
use kv_store_v.Blob.Service.{BlobService, Properties}
use kv_store_v.Store.Lookup.{lookup_tokens}
use kv_store_v.Store.Read.{read_async}
use kv_store_v.Store.Write.{WriteEnd, write_async}
use kv_store_v.Service.Messages.{
  GrpcStatus, ok_status, invalid_argument_status, internal_status, ReadRequest, ProtoChunk,
  to_proto,
}

pub record LookupRequest : Type 0 where
  pub resource_name : Bytes
  pub container_name : Bytes
  pub partition_key : Bytes
  pub completion_id : Bytes
  pub tokens : List ℕ
  pub precomputed_hashes : List ℕ

pub record WriteRequest : Type 0 where
  pub resource_name : Bytes
  pub container_name : Bytes
  pub chunk : Option ProtoChunk

pub record ServerMetrics : Type 0 where
  pub storage_latency_us : ℕ
  pub total_latency_us : ℕ
  pub overhead_us : ℕ

-- A response: `body` is what it carries besides the fields that all responses have.
pub record Response (Body : Type 0) : Type 0 where
  pub success : Bool
  pub error : Bytes
  pub body : Option Body
  pub server_metrics : Option ServerMetrics

-- The response and the statuses that Finish was called with.
pub record Reply (Body : Type 0) : Type 0 where
  pub response : Response Body
  pub finished : List GrpcStatus

module _ {Body : Type 0} where
  -- Finish before anything is put into the response.
  abbrev pub refuse : Bytes → Reply Body
  refuse text = record {
    response = record { success = false; error = []; body = none; server_metrics = none };
    finished = invalid_argument_status text ∷ [];
  }

  -- The response reports `error`, the status `text`.
  abbrev pub fail : Bytes → Bytes → ℕ → Reply Body
  fail error text total_us = record {
    response = record {
      success = false;
      error = error;
      body = none;
      server_metrics =
          some (record {
            storage_latency_us = 0;
            total_latency_us = total_us;
            overhead_us = total_us;
          });
    };
    finished = internal_status text ∷ [];
  }

  abbrev pub no_storage : ℕ → Reply Body
  no_storage total_us =
      fail (codes "Failed to initialize storage for account") (codes "Failed to initialize storage")
        total_us

  abbrev pub succeed : Option Body → ℕ → ℕ → Reply Body
  succeed body storage_us total_us = record {
    response = record {
      success = true;
      error = [];
      body = body;
      server_metrics = some (record {
        storage_latency_us = storage_us;
        total_latency_us = total_us;
        overhead_us = total_us - storage_us;
      });
    };
    finished = ok_status ∷ [];
  }

  -- The handler for std::exception around the storage call.
  abbrev pub answer :
      {A : Type 0} → (Exn → Bytes) → (A → Option Body) → ℕ → ℕ → Result A → Reply Body
  answer what body storage_us total_us (ok a) = succeed (body a) storage_us total_us
  answer what body storage_us total_us (throw e) = fail (what e) (what e) total_us

abbrev pub found_chunk : Bool × PromptChunk → Option (Option ProtoChunk)
found_chunk (true, chunk) = some (some (to_proto chunk))
found_chunk (false, chunk) = some none

abbrev pub from_proto : ProtoChunk → PromptChunk
from_proto c = record {
  hash = c.hash;
  partition_key = c.partition_key;
  parent_hash = c.parent_hash;
  buffer = c.buffer;
  buffer_size = length c.buffer;
  tokens = c.tokens;
  completion_id = c.completion_id;
}

module _ (svc : BlobService) (what : Exn → Bytes) (resolved : Bool) (storage_us total_us : ℕ) where
  unfoldable pub lookup_reactor :
      Base64Url → (ℕ → Bytes → Result Properties) → LookupRequest → Reply LookupResult
  lookup_reactor base64 replies request =
      if empty request.resource_name
      then refuse (codes "resource_name is required")
      else if empty request.container_name
      then refuse (codes "container_name is required")
      else if empty request.tokens
      then refuse (codes "tokens list cannot be empty")
      else if not resolved
      then no_storage total_us
      else answer what (λ result. some result) storage_us total_us
          (lookup_tokens svc replies base64 request.tokens request.precomputed_hashes)

  -- The response's body holds the chunk if the location was found.
  unfoldable pub read_reactor : ReadRequest → svc.State → Reply (Option ProtoChunk) × svc.State
  read_reactor request s =
      if empty request.resource_name
      then (refuse (codes "resource_name is required"), s)
      else if empty request.container_name
      then (refuse (codes "container_name is required"), s)
      else if empty request.location
      then (refuse (codes "location is required"), s)
      else if not resolved
      then (no_storage total_us, s)
      else (let (read, s') = read_async svc request.location s in
          (answer what found_chunk storage_us total_us read, s'))

  abbrev pub write_chunk_reactor :
      Base64Url → Bytes → Option ProtoChunk → svc.State → Reply (Unit {0}) × svc.State
  write_chunk_reactor base64 guid none s = (refuse (codes "chunk is required"), s)
  write_chunk_reactor base64 guid (some chunk) s =
      if not resolved
      then (no_storage total_us, s)
      else (let (end, s') = write_async svc base64 guid (from_proto chunk) s in
          (answer what (λ e. none) storage_us total_us end, s'))

  unfoldable pub write_reactor :
      Base64Url → Bytes → WriteRequest → svc.State → Reply (Unit {0}) × svc.State
  write_reactor base64 guid request s =
      if empty request.resource_name
      then (refuse (codes "resource_name is required"), s)
      else if empty request.container_name
      then (refuse (codes "container_name is required"), s)
      else write_chunk_reactor base64 guid request.chunk s
