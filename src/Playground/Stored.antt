-- ===== src/Playground/Stored.antt =====
-- flushCompletedBlocks and the store: the chunks that a flush hands to WriteAsync, and what a Lookup of the
-- buffer's tokens finds when they are written.
use kv_store_v.Base.{
  ℕ, ◌+◌, ◌*◌, ◌%◌, ◌<◌, ◌≡◌, refl, sym, List, [], ◌∷◌, map, Option, arith, All, Bytes, Exn, length,
  ok, word,
}
use kv_store_v.Types.{PromptChunk}
use kv_store_v.Blob.Name.{Base64Url}
use kv_store_v.Blob.Service.{BlobService}
use kv_store_v.Blob.Contract.{BlobContract}
use kv_store_v.Store.Lookup.{lookup_tokens}
use kv_store_v.Store.Write.Prompt.{IsPrompt, IsFresh, prompt_tokens, last_hash, write_all}
use kv_store_v.Store.Write.Prompt.Found.{found_at}
use kv_store_v.Store.Write.Prompt.Chain.{write_all-lookup_tokens}
use kv_store_v.Playground.Buffer.{
  TokenBufferManager, combine, block_hash, flush_completed_blocks, get_complete_block_count,
}
use kv_store_v.Playground.Packing.{concat, buffered, IsBlock, IsPacked}
use kv_store_v.Playground.Flush.{IsLinked, flush_completed_blocks-IsLinked}

module _ (std_hash : ℕ → ℕ) where
  combine_fits :
      (combined : ℕ) (tokens : List ℕ) → combined < word → combine std_hash combined tokens < word
  unfolding combine
  combine_fits combined [] fits = fits
  combine_fits combined (token ∷ tokens) fits =
      combine_fits ((combined * 31 + std_hash token) % word) tokens (omega arith)

  pub block_hash_fits : (block : List ℕ) → block_hash std_hash block < word
  unfolding block_hash
  block_hash_fits block = combine_fits 0 block (omega arith)

  -- A linked chain for full blocks is a prompt of these blocks.
  record IsPromptOf (parent : ℕ) (blocks : List (List ℕ)) (chunks : List PromptChunk) : Type 0 where
    prompt : IsPrompt parent chunks
    same_tokens : prompt_tokens chunks ≡ concat blocks
    same_count : length chunks ≡ length blocks

  linked-IsPromptOf :
      (parent : ℕ) (blocks : List (List ℕ)) (chunks : List PromptChunk)
      → All IsBlock blocks
      → parent < word
      → IsLinked std_hash parent blocks chunks
      → IsPromptOf parent blocks chunks
  linked-IsPromptOf parent [] [] full fits linked = record {
    prompt = tt;
    same_tokens = refl;
    same_count = refl;
  }
  linked-IsPromptOf parent [] (chunk ∷ chunks) full fits linked = absurd linked
  linked-IsPromptOf parent (b ∷ bs) [] full fits linked = absurd linked
  linked-IsPromptOf parent (b ∷ bs) (chunk ∷ chunks) full fits (tokens, hash, above, linked) =
      let hash_fits : chunk.hash < word = rw hash (block_hash_fits b) in
      let rest = linked-IsPromptOf chunk.hash bs chunks full.1 hash_fits linked in
      record {
        prompt = (rw tokens full.0, hash_fits, rw above fits, above, rest.prompt);
        same_tokens = rw (tokens, rest.same_tokens) refl;
        same_count = omega (arith, rest.same_count);
      }

  module _ (svc : BlobService) (c : BlobContract svc) (base64 : Base64Url)
      (partition_key completion_id buffer : Bytes) where
    abbrev handed_over : Option Exn → TokenBufferManager → List PromptChunk
    handed_over failure m =
        (flush_completed_blocks std_hash partition_key completion_id buffer failure m).1

    -- A flush of a packed buffer with a 64-bit last hash hands over chunks whose blobs are not there and
    -- have different names. Against a service that behaves as documented, once these are written in
    -- order, a lookup of all the buffer's tokens finds exactly its complete blocks, each at its own blob.
    pub flush_completed_blocks-lookup_tokens :
        (guid : PromptChunk → Bytes) (failure : Option Exn) (m : TokenBufferManager) (s : svc.State)
        (hashes : List ℕ)
        → IsPacked m
        → m.last_written_hash < word
        → IsFresh svc c base64 s (handed_over failure m)
        → lookup_tokens svc
            (λ k n.
              (svc.get_properties n (write_all svc c base64 guid (handed_over failure m) s)).0)
            base64
            (buffered m)
            hashes
          ≡ ok (record {
            cached_blocks = get_complete_block_count m;
            last_hash = last_hash 0 (handed_over failure m);
            locations = map (found_at base64) (handed_over failure m);
          })
    unfolding get_complete_block_count
    flush_completed_blocks-lookup_tokens guid failure m s hashes packed fits fresh =
        let p =
          linked-IsPromptOf m.last_written_hash m.completed_blocks (handed_over failure m)
            packed.full fits
            (flush_completed_blocks-IsLinked std_hash partition_key completion_id buffer failure
              m) in
        rw (sym p.same_tokens, sym p.same_count)
          (write_all-lookup_tokens svc c base64 guid m.last_written_hash (handed_over failure m) s
            hashes m.current_block p.prompt fresh packed.partial_block).0
