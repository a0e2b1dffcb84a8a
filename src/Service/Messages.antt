-- ===== src/Service/Messages.antt =====
-- The messages of the gRPC service that the reactors read and fill, and what they share. The message
-- classes are generated from kvstore.proto; latencies and log lines are left out.
use kv_store_v.Base.{
  ℕ, Bool, true, false, List, [], Option, none, some, Bytes, Result, ok, throw, Exn,
}
use kv_store_v.Types.{PromptChunk}

-- grpc::Status, of which the service builds these.
pub data GrpcStatus : Type 0 where
  ok_status : GrpcStatus
  invalid_argument_status internal_status : Bytes → GrpcStatus

pub record ReadRequest : Type 0 where
  pub resource_name : Bytes
  pub container_name : Bytes
  pub location : Bytes
  pub completion_id : Bytes

-- The chunk of a response: the buffer's size is not sent.
pub record ProtoChunk : Type 0 where
  pub hash : ℕ
  pub partition_key : Bytes
  pub parent_hash : ℕ
  pub completion_id : Bytes
  pub buffer : Bytes
  pub tokens : List ℕ

pub record ReadResponse : Type 0 where
  pub success : Bool
  pub found : Bool
  pub error : Bytes
  pub chunk : Option ProtoChunk

abbrev pub to_proto : PromptChunk → ProtoChunk
to_proto c = record {
  hash = c.hash;
  partition_key = c.partition_key;
  parent_hash = c.parent_hash;
  completion_id = c.completion_id;
  buffer = c.buffer;
  tokens = c.tokens;
}

-- A response that only reports an error.
abbrev pub failed_read : Bytes → ReadResponse
failed_read text = record { success = false; found = false; error = text; chunk = none }

-- The response for what ReadAsync gave; `what` is e.what().
unfoldable pub read_response : (Exn → Bytes) → Result (Bool × PromptChunk) → ReadResponse
read_response what (ok (true, chunk)) = record {
  success = true;
  found = true;
  error = [];
  chunk = some (to_proto chunk);
}
read_response what (ok (false, chunk)) = record {
  success = true;
  found = false;
  error = [];
  chunk = none;
}
read_response what (throw e) = failed_read (what e)
