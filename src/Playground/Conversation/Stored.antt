-- ===== src/Playground/Conversation/Stored.antt =====
-- runConversation and the store: what a Lookup of the tokens that a conversation has written finds.
use kv_store_v.Base.{
  ℕ, ◌<◌, ◌≡◌, refl, ap, true, List, [], ◌∷◌, ◌++◌, map, arith, All, Bytes, length, ok, word,
}
use kv_store_v.Types.{PromptChunk}
use kv_store_v.Blob.Name.{Base64Url}
use kv_store_v.Blob.Service.{BlobService}
use kv_store_v.Blob.Contract.{BlobContract}
use kv_store_v.Store.Lookup.{block_size, lookup_tokens}
use kv_store_v.Store.Read.{read_async}
use kv_store_v.Store.Write.Prompt.{IsPrompt, IsFresh, name, prompt_tokens, last_hash, write_all}
use kv_store_v.Store.Write.Prompt.Found.{found_at, read_back}
use kv_store_v.Store.Write.Prompt.Chain.{write_all-lookup_tokens}
use kv_store_v.Playground.Stored.{block_hash_fits}
use kv_store_v.Playground.Conversation.{Session, Turn, new_session, run_turns}
use kv_store_v.Playground.Conversation.Chain.{IsChained, AllNew, tokens_of, run_turns-IsStarted}
use kv_store_v.Playground.Conversation.Full.{IsFull, run_turns-AllFull}

tokens_of_lem : (chunks : List PromptChunk) → tokens_of chunks ≡ prompt_tokens chunks
tokens_of_lem [] = refl
tokens_of_lem (chunk ∷ chunks) = ap (λ (t : List ℕ). chunk.tokens ++ t) (tokens_of_lem chunks)

chained-IsPrompt :
    (std_hash : ℕ → ℕ) (parent last : ℕ) (chunks : List PromptChunk)
    → parent < word
    → IsChained parent chunks last
    → All (IsFull std_hash) chunks
    → IsPrompt parent chunks
chained-IsPrompt std_hash parent last [] fits chained full = tt
chained-IsPrompt std_hash parent last (chunk ∷ chunks) fits (above, chained) (full, rest) =
    let hash_fits : chunk.hash < word = rw full.hashed (block_hash_fits std_hash chunk.tokens) in
    (
      full.block,
      hash_fits,
      rw above fits,
      above,
      chained-IsPrompt std_hash chunk.hash last chunks hash_fits chained rest,
    )

module _ (std_hash : ℕ → ℕ) (partition_key completion_id block_buffer : Bytes) (unique_id : ℕ)
    (turns : List Turn) where
  abbrev run : Session × List PromptChunk
  run = run_turns std_hash partition_key completion_id block_buffer unique_id turns new_session

  -- A conversation is run from its start, with whatever writes failing, and no turn's cache check finds a
  -- block. The blobs of the chunks that it hands over are not there and have different names.
  -- Against a service that behaves as documented, once these are written in order, a lookup of the
  -- tokens recorded as written, followed by fewer than 128 others, finds every chunk at its own
  -- blob, and ReadAsync of each of these gives the chunk's hashes and buffer.
  pub run_turns-lookup_tokens :
      (svc : BlobService) (c : BlobContract svc) (base64 : Base64Url) (guid : PromptChunk → Bytes)
      (s : svc.State) (hashes tail : List ℕ)
      → AllNew std_hash partition_key completion_id block_buffer unique_id turns new_session
      → IsFresh svc c base64 s run.1
      → length tail < block_size
      → (lookup_tokens svc
            (λ k n. (svc.get_properties n (write_all svc c base64 guid run.1 s)).0)
            base64
            (run.0.buffer.all_written_tokens ++ tail)
            hashes
          ≡ ok (record {
            cached_blocks = length run.1;
            last_hash = last_hash 0 run.1;
            locations = map (found_at base64) run.1;
          }))
        × All
            (λ chunk.
              (read_async svc (name base64 chunk) (write_all svc c base64 guid run.1 s)).0
              ≡ ok (true, read_back chunk))
            run.1
  run_turns-lookup_tokens svc c base64 guid s hashes tail new fresh short =
      let started =
        run_turns-IsStarted std_hash partition_key completion_id block_buffer unique_id turns
          new_session new in
      let full =
        run_turns-AllFull std_hash partition_key completion_id block_buffer unique_id turns
          new_session new (record { full = tt; partial_block = omega arith }) in
      let prompt =
        chained-IsPrompt std_hash 0 run.0.buffer.last_written_hash run.1 (omega arith)
          started.chained full.0 in
      rw (started.recorded, tokens_of_lem run.1)
        (write_all-lookup_tokens svc c base64 guid 0 run.1 s hashes tail prompt fresh short)
