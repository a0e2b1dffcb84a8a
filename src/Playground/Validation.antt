-- ===== src/Playground/Validation.antt =====
-- validateCacheRetrieval of KVPlayground/src/main.cpp. The store's Lookup (for a fixed partition key and
-- completion id) and StreamingReadAsync are arguments. Console output is left out.
pub mod Outcome
pub mod Blank
pub mod Intact
use kv_store_v.Base.{
  ℕ, suc, ◌+◌, ◌-◌, ◌*◌, ◌%◌, ◌^◌, Bool, true, false, not, ◌&&◌, ◌||◌, List, [], ◌∷◌, map,
  if◌then◌else◌, ◌==◌, Bytes, empty, length, get_elem?, Option, none, some, add64, sub64,
}
use kv_store_v.Types.{PromptChunk, BlockLocation, LookupResult}
use kv_store_v.Client.Calls.{ServerMetrics, ReadResult}
use kv_store_v.Playground.Buffer.{buffer_block_size}
use kv_store_v.Playground.Stats.{
  OperationStats, CacheStats, add_lookup_time, add_lookup_server_metrics, add_read_time,
  add_read_server_metrics,
}

-- The store as the program calls it, and what stands in memory behind the vector of expected tokens, by the
-- index that is read: the comparison of tokens does not check that bound.
pub record KvStore : Type 0 where
  pub lookup : List ℕ → List ℕ → LookupResult × ServerMetrics
  pub streaming_read : List Bytes → List ReadResult
  pub behind : ℕ → ℕ

-- expectedTokens[n]
abbrev pub token_at : (ℕ → ℕ) → List ℕ → ℕ → ℕ
token_at behind expected n = elim (get_elem? expected n) [ none ↦ behind n | some token ↦ token ]

module _ (behind : ℕ → ℕ) (expected : List ℕ) where
  -- The loop that compares a chunk's tokens with the expected ones from index `n` on.
  unfoldable pub tokens_match : ℕ → List ℕ → Bool
  tokens_match n [] = true
  tokens_match n (token ∷ tokens) =
      if token == token_at behind expected n then tokens_match (n + 1) tokens else false

  -- The counters and hasErrors after a result that stands for the block from index `start` on.
  abbrev pub check_result : ℕ → ReadResult → CacheStats × Bool → CacheStats × Bool
  check_result start (success, chunk, metrics) (stats, has_errors) =
      if not success || chunk.buffer_size == 0
      then (
        record stats { tokens_failed_to_read = stats.tokens_failed_to_read + buffer_block_size },
        true,
      )
      else if tokens_match start chunk.tokens
      then (stats, has_errors)
      else (record stats { tokens_mismatched = stats.tokens_mismatched + 1 }, true)

  unfoldable pub verify_blocks : ℕ → List ReadResult → CacheStats × Bool → CacheStats × Bool
  verify_blocks i [] state = state
  verify_blocks i (r ∷ results) state =
      verify_blocks (suc i) results (check_result (i * buffer_block_size) r state)

-- The streaming read counts as one operation, with the metrics of its first result.
abbrev pub record_stream : List ReadResult → OperationStats → OperationStats
record_stream [] op_stats = op_stats
record_stream ((success, chunk, metrics) ∷ rest) op_stats =
    add_read_server_metrics metrics (add_read_time metrics.client_e2e_us op_stats)

-- An `int` counter to which a size_t is added.
abbrev pub add_size : ℕ → ℕ → ℕ
add_size counter n = add64 counter n % 2 ^ 32

-- The pattern of an `int` that a number is converted to.
abbrev pub to_int : ℕ → ℕ
to_int n = n % 2 ^ 32

-- The counters and hasErrors after the comparison of the lengths; matchedLength is an `int`. Its sign does not
-- reach the counter, which keeps 32 bits.
abbrev pub check_length : ℕ → ℕ → CacheStats → CacheStats × Bool
check_length matched_length size stats = if matched_length == to_int size then (stats, false) else (
  record stats {
    tokens_missing_from_cache =
        add_size stats.tokens_missing_from_cache (sub64 size matched_length);
  },
  true,
)

abbrev pub conclude : ℕ → OperationStats → CacheStats × Bool → Bool × CacheStats × OperationStats
conclude matched_length op_stats (stats, true) =
    (false, record stats { validation_failures = stats.validation_failures + 1 }, op_stats)
conclude matched_length op_stats (stats, false) = (
  true,
  record stats {
    tokens_from_cache = to_int (stats.tokens_from_cache + matched_length);
    cache_hits = stats.cache_hits + 1;
    validation_successes = stats.validation_successes + 1;
  },
  op_stats,
)

-- What follows a lookup.
unfoldable pub validate_found :
    KvStore
    → List ℕ
    → LookupResult
    → CacheStats
    → OperationStats
    → Bool × CacheStats × OperationStats
unfolding verify_blocks tokens_match
validate_found store expected result stats op_stats =
    let matched_length = to_int (result.cached_blocks * buffer_block_size) in
    let results = store.streaming_read (map (λ (l : BlockLocation). l.location) result.locations) in
    if result.cached_blocks == 0
    then (
      false,
      record stats {
        tokens_missing_from_cache = add_size stats.tokens_missing_from_cache (length expected);
        validation_failures = stats.validation_failures + 1;
      },
      op_stats,
    )
    else conclude matched_length (record_stream results op_stats) (
        verify_blocks store.behind expected 0 results
          (check_length matched_length (length expected) stats))

unfoldable pub validate_cache_retrieval :
    KvStore → List ℕ → List ℕ → CacheStats → OperationStats → Bool × CacheStats × OperationStats
unfolding validate_found
validate_cache_retrieval store expected block_hashes stats op_stats =
    let (result, metrics) = store.lookup expected block_hashes in
    if empty expected
    then (true, stats, op_stats)
    else validate_found store expected result
        (record stats { validation_attempts = stats.validation_attempts + 1 })
        (add_lookup_server_metrics metrics (add_lookup_time metrics.client_e2e_us op_stats))
