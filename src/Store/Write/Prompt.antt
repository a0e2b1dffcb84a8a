-- ===== src/Store/Write/Prompt.antt =====
-- A whole prompt: the blocks of a chain are written one after the other.
pub mod Found
pub mod Chain
use kv_store_v.Base.{
  ℕ, zero, suc, ◌+◌, ◌-◌, ◌*◌, ◌/◌, ◌<◌, ◌≡◌, refl, sym, ap, ◌∙◌, true, false, Bool-cases, ◌⊎◌, inl,
  inr, List, [], ◌∷◌, ◌++◌, append-nil, append_assoc, map, Option, some, none, All, arith,
  if◌then◌else◌, Bytes, codes, empty, equal, equal_self, equal_sound, length, length-append, take,
  drop, take-length-append, drop-length-append, ok, Result, word, to_string, stoull-to_string,
}
use kv_store_v.Types.{PromptChunk, BlockLocation, LookupResult, no_blocks}
use kv_store_v.Blob.Name.{Base64Url, encode_tokens_to_blob_name}
use kv_store_v.Blob.Service.{BlobService, Properties, metadata_find}
use kv_store_v.Blob.Contract.{Stored, BlobContract}
use kv_store_v.Store.Lookup.{
  block_size, BlockInfo, Probe, prepare_blocks, hash_or_zero, read_metadata, probe_block,
  choose_version, add_location, next_location, follow_chain, lookup_tokens,
}
use kv_store_v.Store.Write.First.{find_hash, find_parent, find_none, write_async-first}
use kv_store_v.Store.Write.{chunk_metadata, content, write_async}

-- Full blocks with 64-bit hashes, of which each names the one before it as its parent, from `parent` on.
abbrev pub IsPrompt : ℕ → List PromptChunk → Type 0
IsPrompt parent [] = Unit
IsPrompt parent (chunk ∷ chunks) =
    (length chunk.tokens ≡ block_size)
    × (chunk.hash < word)
    × (chunk.parent_hash < word)
    × (chunk.parent_hash ≡ parent)
    × IsPrompt chunk.hash chunks

abbrev pub prompt_tokens : List PromptChunk → List ℕ
prompt_tokens [] = []
prompt_tokens (chunk ∷ chunks) = chunk.tokens ++ prompt_tokens chunks

abbrev pub last_hash : ℕ → List PromptChunk → ℕ
last_hash hash [] = hash
last_hash hash (chunk ∷ chunks) = last_hash chunk.hash chunks

abbrev pub name : Base64Url → PromptChunk → Bytes
name base64 chunk = encode_tokens_to_blob_name base64 chunk.tokens

module _ (svc : BlobService) (c : BlobContract svc) (base64 : Base64Url) where
  -- The blocks' blobs are not there, and have different names.
  abbrev pub IsFresh : svc.State → List PromptChunk → Type 0
  IsFresh s [] = Unit
  IsFresh s (chunk ∷ chunks) =
      (c.blob (name base64 chunk) s ≡ none)
      × All (λ (d : PromptChunk). equal (name base64 chunk) (name base64 d) ≡ false) chunks
      × IsFresh s chunks

  -- Each block is written under a random name of its own, which is not used.
  abbrev pub write_all : (PromptChunk → Bytes) → List PromptChunk → svc.State → svc.State
  write_all guid [] s = s
  write_all guid (chunk ∷ chunks) s =
      write_all guid chunks (write_async svc base64 (guid chunk) chunk s).1

  -- The block's blob holds it as a first version.
  pub record IsStored (s : svc.State) (chunk : PromptChunk) : Type 0 where
    pub blob : Stored
    pub found : c.blob (name base64 chunk) s ≡ some blob
    pub same_body : blob.body ≡ content chunk
    pub same : blob.metadata ≡ chunk_metadata chunk (name base64 chunk)

  equal_apart : (a b : Bytes) → equal a b ≡ false → equal b a ≡ false
  equal_apart a b differ = elim (Bool-cases (equal b a)) [
    | inl same ↦
        absurd (
          ground
            (arith, ap (λ (n : Bytes). equal a n) (equal_sound b a same), differ, equal_self a))
    | inr apart ↦ apart
  ]

  other_kept :
      (guid j : Bytes) (chunk : PromptChunk) (s : svc.State)
      → c.blob (name base64 chunk) s ≡ none
      → equal (name base64 chunk) j ≡ false
      → c.blob j (write_async svc base64 guid chunk s).1 ≡ c.blob j s
  other_kept guid j chunk s absent apart =
      (write_async-first svc c base64 guid chunk s absent).1 j ∙ rw apart refl

  rest-IsFresh :
      (guid : Bytes) (chunk : PromptChunk) (chunks : List PromptChunk) (s : svc.State)
      → c.blob (name base64 chunk) s ≡ none
      → All (λ (d : PromptChunk). equal (name base64 chunk) (name base64 d) ≡ false) chunks
      → IsFresh s chunks
      → IsFresh (write_async svc base64 guid chunk s).1 chunks
  rest-IsFresh guid chunk [] s absent apart fresh = tt
  rest-IsFresh guid chunk (d ∷ ds) s absent apart fresh = (
    other_kept guid (name base64 d) chunk s absent apart.0 ∙ fresh.0,
    fresh.1,
    rest-IsFresh guid chunk ds s absent apart.1 fresh.2,
  )

  write_all-other :
      (guid : PromptChunk → Bytes) (j : Bytes) (chunks : List PromptChunk) (s : svc.State)
      → IsFresh s chunks
      → All (λ (d : PromptChunk). equal j (name base64 d) ≡ false) chunks
      → c.blob j (write_all guid chunks s) ≡ c.blob j s
  write_all-other guid j [] s fresh apart = refl
  write_all-other guid j (chunk ∷ chunks) s (absent, others, fresh) (differ, apart) =
      write_all-other guid j chunks (write_async svc base64 (guid chunk) chunk s).1
        (rest-IsFresh (guid chunk) chunk chunks s absent others fresh) apart
      ∙ other_kept (guid chunk) j chunk s absent (equal_apart j (name base64 chunk) differ)

  pub write_all-IsStored :
      (guid : PromptChunk → Bytes) (chunks : List PromptChunk) (s : svc.State)
      → IsFresh s chunks
      → All (IsStored (write_all guid chunks s)) chunks
  write_all-IsStored guid [] s fresh = tt
  write_all-IsStored guid (chunk ∷ chunks) s (absent, others, fresh) =
      let s' = (write_async svc base64 (guid chunk) chunk s).1 in
      let fresh' = rest-IsFresh (guid chunk) chunk chunks s absent others fresh in
      (
        record {
          blob = record {
            body = content chunk;
            metadata = chunk_metadata chunk (name base64 chunk);
            etag = c.new_etag (name base64 chunk) s;
          };
          found =
              write_all-other guid (name base64 chunk) chunks s' fresh' others
              ∙ (write_async-first svc c base64 (guid chunk) chunk s absent).1 (name base64 chunk)
              ∙ rw (equal_self (name base64 chunk)) refl;
          same_body = refl;
          same = refl;
        },
        write_all-IsStored guid chunks s' fresh',
      )
