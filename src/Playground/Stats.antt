-- ===== src/Playground/Stats.antt =====
-- OperationStats and CacheStats of KVPlayground/src/main.cpp. Times are the 64-bit patterns of int64_t and
-- are in order as such when they are not negative; std::sort is an argument. Counters are `int`s that stay far
-- from their bound. What is only displayed is left out.
use kv_store_v.Base.{
  ℕ, ◌-◌, ◌*◌, ◌/◌, List, [], ◌∷◌, ◌++◌, none, some, if◌then◌else◌, leb, empty, length, get_elem?,
}
use kv_store_v.Client.Calls.{ServerMetrics, positive}

pub record OperationStats : Type 0 where
  pub lookup_times : List ℕ
  pub read_times : List ℕ
  pub write_times : List ℕ
  pub lookup_storage_times : List ℕ
  pub lookup_server_total_times : List ℕ
  pub read_storage_times : List ℕ
  pub read_server_total_times : List ℕ
  pub write_storage_times : List ℕ
  pub write_server_total_times : List ℕ
  pub lookup_serialize_times : List ℕ
  pub lookup_deserialize_times : List ℕ
  pub lookup_network_times : List ℕ
  pub write_serialize_times : List ℕ
  pub write_network_times : List ℕ
  pub read_deserialize_times : List ℕ
  pub read_network_times : List ℕ

abbrev pub no_operations : OperationStats
no_operations = record {
  lookup_times = [];
  read_times = [];
  write_times = [];
  lookup_storage_times = [];
  lookup_server_total_times = [];
  read_storage_times = [];
  read_server_total_times = [];
  write_storage_times = [];
  write_server_total_times = [];
  lookup_serialize_times = [];
  lookup_deserialize_times = [];
  lookup_network_times = [];
  write_serialize_times = [];
  write_network_times = [];
  read_deserialize_times = [];
  read_network_times = [];
}

abbrev pub add_lookup_time : ℕ → OperationStats → OperationStats
add_lookup_time us s = record s { lookup_times = s.lookup_times ++ us ∷ [] }

abbrev pub add_read_time : ℕ → OperationStats → OperationStats
add_read_time us s = record s { read_times = s.read_times ++ us ∷ [] }

abbrev pub add_write_time : ℕ → OperationStats → OperationStats
add_write_time us s = record s { write_times = s.write_times ++ us ∷ [] }

-- `x` is appended if `t` is above 0.
abbrev pub push_if : ℕ → ℕ → List ℕ → List ℕ
push_if t x times = if positive t then times ++ x ∷ [] else times

abbrev pub add_lookup_server_metrics : ServerMetrics → OperationStats → OperationStats
add_lookup_server_metrics m s = record s {
  lookup_storage_times = push_if m.total_latency_us m.storage_latency_us s.lookup_storage_times;
  lookup_server_total_times =
      push_if m.total_latency_us m.total_latency_us s.lookup_server_total_times;
  lookup_serialize_times = push_if m.serialize_us m.serialize_us s.lookup_serialize_times;
  lookup_deserialize_times = push_if m.deserialize_us m.deserialize_us s.lookup_deserialize_times;
  lookup_network_times = push_if m.network_us m.network_us s.lookup_network_times;
}

abbrev pub add_read_server_metrics : ServerMetrics → OperationStats → OperationStats
add_read_server_metrics m s = record s {
  read_storage_times = push_if m.total_latency_us m.storage_latency_us s.read_storage_times;
  read_server_total_times = push_if m.total_latency_us m.total_latency_us s.read_server_total_times;
  read_deserialize_times = push_if m.deserialize_us m.deserialize_us s.read_deserialize_times;
  read_network_times = push_if m.network_us m.network_us s.read_network_times;
}

abbrev pub add_write_server_metrics : ServerMetrics → OperationStats → OperationStats
add_write_server_metrics m s = record s {
  write_storage_times = push_if m.total_latency_us m.storage_latency_us s.write_storage_times;
  write_server_total_times =
      push_if m.total_latency_us m.total_latency_us s.write_server_total_times;
  write_serialize_times = push_if m.serialize_us m.serialize_us s.write_serialize_times;
  write_network_times = push_if m.network_us m.network_us s.write_network_times;
}

unfoldable pub merge : OperationStats → OperationStats → OperationStats
merge other s = record {
  lookup_times = s.lookup_times ++ other.lookup_times;
  read_times = s.read_times ++ other.read_times;
  write_times = s.write_times ++ other.write_times;
  lookup_storage_times = s.lookup_storage_times ++ other.lookup_storage_times;
  lookup_server_total_times = s.lookup_server_total_times ++ other.lookup_server_total_times;
  read_storage_times = s.read_storage_times ++ other.read_storage_times;
  read_server_total_times = s.read_server_total_times ++ other.read_server_total_times;
  write_storage_times = s.write_storage_times ++ other.write_storage_times;
  write_server_total_times = s.write_server_total_times ++ other.write_server_total_times;
  lookup_serialize_times = s.lookup_serialize_times ++ other.lookup_serialize_times;
  lookup_deserialize_times = s.lookup_deserialize_times ++ other.lookup_deserialize_times;
  lookup_network_times = s.lookup_network_times ++ other.lookup_network_times;
  write_serialize_times = s.write_serialize_times ++ other.write_serialize_times;
  write_network_times = s.write_network_times ++ other.write_network_times;
  read_deserialize_times = s.read_deserialize_times ++ other.read_deserialize_times;
  read_network_times = s.read_network_times ++ other.read_network_times;
}

-- An element of a vector; there is one wherever the program reads it.
abbrev pub at : List ℕ → ℕ → ℕ
at times i = elim (get_elem? times i) [ none ↦ 0 | some x ↦ x ]

-- The index of a percentile. The program asks for whole percentiles; below 2 ^ 45 samples the quotient of
-- doubles then truncates to this one.
abbrev pub percentile_index : ℕ → ℕ → ℕ
percentile_index size percentile =
    let index = size * percentile / 100 in if leb size index then size - 1 else index

unfoldable pub get_percentile : (List ℕ → List ℕ) → List ℕ → ℕ → ℕ
get_percentile sort times percentile =
    if empty times then 0 else at (sort times) (percentile_index (length times) percentile)

pub record CacheStats : Type 0 where
  pub total_tokens_processed : ℕ
  pub tokens_from_cache : ℕ
  pub tokens_computed : ℕ
  pub cache_hits : ℕ
  pub cache_misses : ℕ
  pub validation_attempts : ℕ
  pub validation_successes : ℕ
  pub validation_failures : ℕ
  pub tokens_missing_from_cache : ℕ
  pub tokens_failed_to_read : ℕ
  pub tokens_mismatched : ℕ

-- CacheStats() and reset()
abbrev pub reset : CacheStats
reset = record {
  total_tokens_processed = 0;
  tokens_from_cache = 0;
  tokens_computed = 0;
  cache_hits = 0;
  cache_misses = 0;
  validation_attempts = 0;
  validation_successes = 0;
  validation_failures = 0;
  tokens_missing_from_cache = 0;
  tokens_failed_to_read = 0;
  tokens_mismatched = 0;
}
