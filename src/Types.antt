-- ===== src/Types.antt =====
-- KVService/include/KVTypes.h: the values that the storage library and the service exchange.
-- A hash is a uint64_t and a token the 64-bit pattern of its int64_t, both as ℕ below 2 ^ 64.
use kv_store_v.Base.{ℕ, List, [], Bytes}

pub record PromptChunk : Type 0 where
  pub hash : ℕ
  pub partition_key : Bytes
  pub parent_hash : ℕ
  pub buffer : Bytes
  pub buffer_size : ℕ
  pub tokens : List ℕ
  pub completion_id : Bytes

-- PromptChunk()
abbrev pub empty_chunk : PromptChunk
empty_chunk = record {
  hash = 0;
  partition_key = [];
  parent_hash = 0;
  buffer = [];
  buffer_size = 0;
  tokens = [];
  completion_id = [];
}

pub record BlockLocation : Type 0 where
  pub hash : ℕ
  pub location : Bytes

pub record LookupResult : Type 0 where
  pub cached_blocks : ℕ
  pub last_hash : ℕ
  pub locations : List BlockLocation

-- LookupResult()
abbrev pub no_blocks : LookupResult
no_blocks = record { cached_blocks = 0; last_hash = 0; locations = [] }
