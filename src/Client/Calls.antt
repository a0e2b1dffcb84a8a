-- ===== src/Client/Calls.antt =====
-- KVClient/src/KVStoreGrpcClient.cpp: Initialize, Lookup, ReadAsync and WriteAsync. The generated stub is an
-- argument, a function of the request; so are the elapsed microseconds of the clocks, and the variable
-- KVSTORE_GRPC_SERVER. A time is the 64-bit pattern of an int64_t. The channel's arguments and the log lines
-- are left out, and the server's address stands for the channel.
pub mod Delivery
pub mod EndToEnd
pub mod RoundTrip
use kv_store_v.Base.{
  ℕ, ◌+◌, ◌≤◌, ◌^◌, Bool, true, false, not, ◌&&◌, ◌||◌, List, [], Option, none, some, if◌then◌else◌,
  ltb, sub64, Bytes, codes, length, ◌++◌, Result, ok, throw, runtime_error,
}
use kv_store_v.Types.{PromptChunk, empty_chunk, LookupResult, no_blocks}
use kv_store_v.Service.Messages.{ReadRequest, ReadResponse, ProtoChunk, to_proto}
use kv_store_v.Service.Unary as Unary
use kv_store_v.Service.Unary.{LookupRequest, WriteRequest, Response, from_proto}
use kv_store_v.Client.{extract_resource_name}

-- What the client keeps; the address is that of the channel of its stub.
pub record Impl : Type 0 where
  pub initialized : Bool
  pub resource_name : Bytes
  pub container_name : Bytes
  pub server_address : Bytes

-- Impl()
abbrev pub new_impl : Impl
new_impl = record {
  initialized = false;
  resource_name = [];
  container_name = [];
  server_address = [];
}

unfoldable pub initialize_impl : Bytes → Bytes → Bytes → Impl → Bool × Impl
unfolding extract_resource_name
initialize_impl account_url container server self = (
  true,
  record {
    initialized = true;
    resource_name = extract_resource_name account_url;
    container_name = container;
    server_address = server;
  },
)

-- The address is KVSTORE_GRPC_SERVER, if it is set.
abbrev pub grpc_server : Option Bytes → Bytes
grpc_server none = codes "localhost:50051"
grpc_server (some address) = address

unfoldable pub initialize : Option Bytes → Bytes → Bytes → Impl → Bool × Impl
unfolding initialize_impl
initialize env_server account_url container self =
    initialize_impl account_url container (grpc_server env_server) self

-- The client's ServerMetrics: what the server sent, and the client's own measures.
pub record ServerMetrics : Type 0 where
  pub storage_latency_us : ℕ
  pub total_latency_us : ℕ
  pub overhead_us : ℕ
  pub client_e2e_us : ℕ
  pub serialize_us : ℕ
  pub deserialize_us : ℕ
  pub network_us : ℕ

abbrev pub no_metrics : ServerMetrics
no_metrics = record {
  storage_latency_us = 0;
  total_latency_us = 0;
  overhead_us = 0;
  client_e2e_us = 0;
  serialize_us = 0;
  deserialize_us = 0;
  network_us = 0;
}

-- The three elapsed times of a call.
pub record Elapsed : Type 0 where
  pub serialize : ℕ
  pub grpc : ℕ
  pub deserialize : ℕ

-- An int64_t above 0.
abbrev pub positive : ℕ → Bool
positive x = ltb 0 x && ltb x (2 ^ 63)

-- The fields that a response with server_metrics sets.
abbrev pub sent_metrics : Option Unary.ServerMetrics → ServerMetrics
sent_metrics none = no_metrics
sent_metrics (some sm) = record no_metrics {
  storage_latency_us = sm.storage_latency_us;
  total_latency_us = sm.total_latency_us;
  overhead_us = sm.overhead_us;
}

-- What ok() and error_message() of a grpc::Status give.
pub data RpcStatus : Type 0 where
  rpc_ok : RpcStatus
  rpc_failed : Bytes → RpcStatus

abbrev pub blocks_of : Option LookupResult → LookupResult
blocks_of none = no_blocks
blocks_of (some result) = result

abbrev pub lookup_metrics : Elapsed → ServerMetrics → ServerMetrics
lookup_metrics t m = record m {
  client_e2e_us = t.serialize + t.grpc + t.deserialize;
  serialize_us = t.serialize;
  deserialize_us = t.deserialize;
  network_us = if positive m.total_latency_us then sub64 t.grpc m.total_latency_us else 0;
}

-- After the call: the server_metrics of the result stand beside it.
abbrev pub lookup_reply : Elapsed → RpcStatus × Response LookupResult → LookupResult × ServerMetrics
lookup_reply t (rpc_failed text, response) = (no_blocks, no_metrics)
lookup_reply t (rpc_ok, response) =
    if not response.success
    then (no_blocks, no_metrics)
    else (blocks_of response.body, lookup_metrics t (sent_metrics response.server_metrics))

abbrev pub lookup_request : Impl → Bytes → Bytes → List ℕ → List ℕ → LookupRequest
lookup_request self partition_key completion_id tokens precomputed_hashes = record {
  resource_name = self.resource_name;
  container_name = self.container_name;
  partition_key = partition_key;
  completion_id = completion_id;
  tokens = tokens;
  precomputed_hashes = precomputed_hashes;
}

unfoldable pub lookup :
    (LookupRequest → RpcStatus × Response LookupResult)
    → Elapsed
    → Impl
    → Bytes
    → Bytes
    → List ℕ
    → List ℕ
    → LookupResult × ServerMetrics
lookup stub t self partition_key completion_id tokens precomputed_hashes =
    if not self.initialized
    then (no_blocks, no_metrics)
    else lookup_reply t
        (stub (lookup_request self partition_key completion_id tokens precomputed_hashes))

-- The default instance, which chunk() gives if the field is not set.
abbrev pub sent_chunk : Option ProtoChunk → PromptChunk
sent_chunk none = empty_chunk
sent_chunk (some chunk) = from_proto chunk

abbrev pub read_metrics : Elapsed → ServerMetrics → ServerMetrics
read_metrics t m = record m {
  client_e2e_us = t.grpc;
  serialize_us = t.serialize;
  deserialize_us = t.deserialize;
  network_us =
      if positive m.total_latency_us
      then sub64 (sub64 t.grpc m.total_latency_us) t.deserialize
      else 0;
}

-- found, the chunk and the metrics.
abbrev pub ReadResult : Type 0
ReadResult = Bool × PromptChunk × ServerMetrics

-- (false, PromptChunk{}, ServerMetrics{})
abbrev pub not_found : ReadResult
not_found = (false, empty_chunk, no_metrics)

-- A response of Read or StreamingRead, with its server_metrics.
abbrev pub TimedResponse : Type 0
TimedResponse = ReadResponse × Option Unary.ServerMetrics

abbrev pub read_reply : Elapsed → RpcStatus × TimedResponse → ReadResult
read_reply t (rpc_failed text, (response, sm)) = not_found
read_reply t (rpc_ok, (response, sm)) =
    if not response.success || not response.found
    then not_found
    else (true, sent_chunk response.chunk, read_metrics t (sent_metrics sm))

abbrev pub read_request : Impl → Bytes → Bytes → ReadRequest
read_request self location completion_id = record {
  resource_name = self.resource_name;
  container_name = self.container_name;
  location = location;
  completion_id = completion_id;
}

abbrev pub write_metrics : Elapsed → ServerMetrics → ServerMetrics
write_metrics t m = record m {
  client_e2e_us = t.grpc;
  serialize_us = t.serialize;
  deserialize_us = 0;
  network_us = if positive m.total_latency_us then sub64 t.grpc m.total_latency_us else 0;
}

abbrev pub write_reply : Elapsed → RpcStatus × Response (Unit {0}) → Result ServerMetrics
write_reply t (rpc_failed text, response) =
    throw (runtime_error (codes "Write RPC failed: " ++ text))
write_reply t (rpc_ok, response) =
    if not response.success
    then throw (runtime_error (codes "Write failed: " ++ response.error))
    else ok (write_metrics t (sent_metrics response.server_metrics))

-- The chunk of a write request; its buffer is the whole `buffer`, whatever bufferSize says.
abbrev pub write_request : Impl → PromptChunk → WriteRequest
write_request self chunk = record {
  resource_name = self.resource_name;
  container_name = self.container_name;
  chunk = some (to_proto chunk);
}

module _ {State : Type 0} where
  unfoldable pub read_async :
      (ReadRequest → State → (RpcStatus × TimedResponse) × State)
      → Elapsed
      → Impl
      → Bytes
      → Bytes
      → State
      → ReadResult × State
  read_async stub t self location completion_id s =
      if not self.initialized
      then (not_found, s)
      else (let (reply, s') = stub (read_request self location completion_id) s in
          (read_reply t reply, s'))

  unfoldable pub write_async :
      (WriteRequest → State → (RpcStatus × Response (Unit {0})) × State)
      → Elapsed
      → Impl
      → PromptChunk
      → State
      → Result ServerMetrics × State
  write_async stub t self chunk s =
      if not self.initialized
      then (throw (runtime_error (codes "KVClient not initialized")), s)
      else (let (reply, s') = stub (write_request self chunk) s in (write_reply t reply, s'))
