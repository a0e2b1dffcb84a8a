-- ===== src/Store/Write/Prompt/Chain.antt =====
-- Lookup of a prompt whose blocks have all been written.
use kv_store_v.Base.{
  ℕ, ◌+◌, ◌*◌, ◌/◌, ◌<◌, ◌≡◌, refl, sym, ap, ◌∙◌, true, inl, inr, ◌⊎◌, List, [], ◌∷◌, ◌++◌,
  append-nil, append_assoc, map, All, arith, Bytes, length, length-append, take, drop,
  take-length-append, drop-length-append, ok,
}
use kv_store_v.Types.{PromptChunk, LookupResult, no_blocks}
use kv_store_v.Blob.Name.{Base64Url}
use kv_store_v.Blob.Service.{BlobService}
use kv_store_v.Blob.Contract.{BlobContract}
use kv_store_v.Store.Lookup.{block_size, prepare_blocks, add_location, follow_chain, lookup_tokens}
use kv_store_v.Store.Read.{read_async}
use kv_store_v.Store.Write.Prompt.{
  IsPrompt, IsFresh, IsStored, name, prompt_tokens, last_hash, write_all, write_all-IsStored,
}
use kv_store_v.Store.Write.Prompt.Found.{
  found_at, read_back, replies, next_location-IsStored, read_async-IsStored,
}

regroup :
    (before tokens rest tail : List ℕ)
    → before ++ ((tokens ++ rest) ++ tail) ≡ (before ++ tokens) ++ (rest ++ tail)
regroup before tokens rest tail =
    ground (arith, append_assoc tokens rest tail, append_assoc before tokens (rest ++ tail))

take_block :
    (before tokens rest tail : List ℕ) (i : ℕ)
    → length before ≡ i * block_size
    → length tokens ≡ block_size
    → take block_size (drop (i * block_size) (before ++ ((tokens ++ rest) ++ tail))) ≡ tokens
take_block before tokens rest tail i at full =
    rw
      (
        append_assoc tokens rest tail,
        sym at,
        sym full,
        drop-length-append before (tokens ++ (rest ++ tail)),
      )
      (take-length-append tokens (rest ++ tail))

module _ (svc : BlobService) (c : BlobContract svc) (base64 : Base64Url) where
  abbrev add_all : LookupResult → List PromptChunk → LookupResult
  add_all r [] = r
  add_all r (chunk ∷ chunks) = add_all (add_location r (found_at base64 chunk)) chunks

  add_all_lem :
      (r : LookupResult) (chunks : List PromptChunk)
      → add_all r chunks ≡ record {
        cached_blocks = r.cached_blocks + length chunks;
        last_hash = last_hash r.last_hash chunks;
        locations = r.locations ++ map (found_at base64) chunks;
      }
  add_all_lem r [] = ground (arith, append-nil r.locations)
  add_all_lem r (chunk ∷ chunks) = ground (
    arith,
    add_all_lem (add_location r (found_at base64 chunk)) chunks,
    append_assoc r.locations (found_at base64 chunk ∷ []) (map (found_at base64) chunks),
  )

  module _ (s : svc.State) (hashes tail : List ℕ) where
    follow_chain-prompt :
        (before : List ℕ) (i k parent : ℕ) (r : LookupResult) (chunks : List PromptChunk)
        → length before ≡ i * block_size
        → IsPrompt parent chunks
        → All (IsStored svc c base64 s) chunks
        → (k ≡ 0) ⊎ (r.last_hash ≡ parent)
        → follow_chain svc
            (replies svc c base64 s)
            (prepare_blocks base64
              (before ++ (prompt_tokens chunks ++ tail))
              hashes
              (length chunks)
              i)
            k
            r.last_hash
            r
          ≡ ok (add_all r chunks)
    unfolding follow_chain prepare_blocks
    follow_chain-prompt before i k parent r [] at prompt stored fit = refl
    follow_chain-prompt before i k parent r (chunk ∷ chunks) at prompt stored fit =
        rw
          (
            take_block before chunk.tokens (prompt_tokens chunks) tail i at prompt.0,
            next_location-IsStored svc c base64 s k r.last_hash _ chunk stored.0 prompt.1 prompt.2
                fits,
          )
          (ap
              (λ (ts : List ℕ).
                follow_chain svc (replies svc c base64 s)
                  (prepare_blocks base64 ts hashes (length chunks) (i + 1)) (k + 1) chunk.hash
                  (add_location r (found_at base64 chunk)))
              (regroup before chunk.tokens (prompt_tokens chunks) tail)
            ∙ follow_chain-prompt (before ++ chunk.tokens) (i + 1) (k + 1) chunk.hash
                (add_location r (found_at base64 chunk)) chunks
                (omega (arith, length-append before chunk.tokens, at, prompt.0)) prompt.4 stored.1
                (inr refl))
      where
        fits : (k ≡ 0) ⊎ (chunk.parent_hash ≡ r.last_hash)
        fits = elim fit [ inl start ↦ inl start | inr e ↦ inr (prompt.3 ∙ sym e) ]

    length-prompt_tokens :
        (parent : ℕ) (chunks : List PromptChunk)
        → IsPrompt parent chunks
        → length (prompt_tokens chunks ++ tail) ≡ length chunks * block_size + length tail
    length-prompt_tokens parent [] prompt = omega arith
    length-prompt_tokens parent (chunk ∷ chunks) prompt = omega (
      arith,
      ap length (append_assoc chunk.tokens (prompt_tokens chunks) tail),
      length-append chunk.tokens (prompt_tokens chunks ++ tail),
      length-prompt_tokens chunk.hash chunks prompt.4,
      prompt.0,
    )

    full_blocks :
        (parent : ℕ) (chunks : List PromptChunk)
        → IsPrompt parent chunks
        → length tail < block_size
        → length (prompt_tokens chunks ++ tail) / block_size ≡ length chunks
    full_blocks parent chunks prompt short =
        omega (arith, length-prompt_tokens parent chunks prompt)

    lookup_tokens-IsStored :
        (parent : ℕ) (chunks : List PromptChunk)
        → IsPrompt parent chunks
        → All (IsStored svc c base64 s) chunks
        → length tail < block_size
        → lookup_tokens svc (replies svc c base64 s) base64 (prompt_tokens chunks ++ tail) hashes
          ≡ ok (record {
            cached_blocks = length chunks;
            last_hash = last_hash 0 chunks;
            locations = map (found_at base64) chunks;
          })
    unfolding lookup_tokens
    lookup_tokens-IsStored parent [] prompt stored short =
        rw (full_blocks parent [] prompt short) refl
    lookup_tokens-IsStored parent (chunk ∷ chunks) prompt stored short = ground (
      arith,
      full_blocks parent (chunk ∷ chunks) prompt short,
      follow_chain-prompt [] 0 0 parent no_blocks (chunk ∷ chunks) refl prompt stored (inl refl),
      add_all_lem no_blocks (chunk ∷ chunks),
    )

    chunks_read :
        (parent : ℕ) (chunks : List PromptChunk)
        → IsPrompt parent chunks
        → All (IsStored svc c base64 s) chunks
        → All
            (λ chunk. (read_async svc (name base64 chunk) s).0 ≡ ok (true, read_back chunk))
            chunks
    chunks_read parent [] prompt stored = tt
    chunks_read parent (chunk ∷ chunks) prompt stored = (
      read_async-IsStored svc c base64 s chunk stored.0 prompt.1 prompt.2,
      chunks_read chunk.hash chunks prompt.4 stored.1,
    )

  -- Against a service that behaves as documented, a prompt is written block by block: full blocks with 64-bit
  -- hashes, each with the hash of the one before it as its parent, whose blobs are not there and
  -- have different names. A lookup of all their tokens, followed by fewer than 128 others, then
  -- finds every block in order at its own blob, with the last block's hash; and ReadAsync of each
  -- of these blobs gives that block's hashes and buffer.
  pub write_all-lookup_tokens :
      (guid : PromptChunk → Bytes) (parent : ℕ) (chunks : List PromptChunk) (s : svc.State)
      (hashes tail : List ℕ)
      → IsPrompt parent chunks
      → IsFresh svc c base64 s chunks
      → length tail < block_size
      → (lookup_tokens svc
            (replies svc c base64 (write_all svc c base64 guid chunks s))
            base64
            (prompt_tokens chunks ++ tail)
            hashes
          ≡ ok (record {
            cached_blocks = length chunks;
            last_hash = last_hash 0 chunks;
            locations = map (found_at base64) chunks;
          }))
        × All
            (λ chunk.
              (read_async svc (name base64 chunk) (write_all svc c base64 guid chunks s)).0
              ≡ ok (true, read_back chunk))
            chunks
  write_all-lookup_tokens guid parent chunks s hashes tail prompt fresh short =
      let stored = write_all-IsStored svc c base64 guid chunks s fresh in
      let s' = write_all svc c base64 guid chunks s in
      (
        lookup_tokens-IsStored s' hashes tail parent chunks prompt stored short,
        chunks_read s' hashes tail parent chunks prompt stored,
      )
