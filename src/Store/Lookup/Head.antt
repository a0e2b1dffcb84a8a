-- ===== src/Store/Lookup/Head.antt =====
-- The first block of a lookup: its parent hash is never compared.
use kv_store_v.Base.{
  ℕ, zero, suc, ap, ◌==◌, if◌then◌else◌, ◌/◌, ◌≤◌, ◌≡◌, List, some, arith, Bytes, length, take,
  get_elem?, Result, ok,
}
use kv_store_v.Types.{BlockLocation, LookupResult, no_blocks}
use kv_store_v.Blob.Name.{Base64Url, encode_tokens_to_blob_name}
use kv_store_v.Blob.Service.{BlobService, Properties}
use kv_store_v.Store.Lookup.{
  block_size, Probe, prepare_blocks, probe_block, choose_version, next_location, add_location,
  follow_chain, lookup_tokens,
}
use kv_store_v.Store.Lookup.Chain.{follow_chain-Follows}

choose_version-head :
    (parent : ℕ) (name : Bytes) (p : Probe)
    → choose_version 0 parent name p ≡ ok (some (record { hash = p.stored_hash; location = name }))
unfolding choose_version
choose_version-head parent name p = ground arith

head_location : Base64Url → List ℕ → Probe → BlockLocation
head_location base64 tokens p = record {
  hash = p.stored_hash;
  location = encode_tokens_to_blob_name base64 (take block_size tokens);
}

module _ (svc : BlobService) (replies : ℕ → Bytes → Result Properties) (base64 : Base64Url)
    (tokens hashes : List ℕ) (p : Probe) (r : LookupResult)
    (found : probe_block svc
        (replies 0 (encode_tokens_to_blob_name base64 (take block_size tokens)))
      ≡ ok (some p)) where
  next_location-head :
      (hash : ℕ)
      → next_location svc replies 0 0 (record {
        blob_name = encode_tokens_to_blob_name base64 (take block_size tokens);
        expected_hash = hash;
      })
        ≡ ok (some (head_location base64 tokens p))
  unfolding next_location head_location
  next_location-head hash =
      rw found
        (choose_version-head 0 (encode_tokens_to_blob_name base64 (take block_size tokens)) p)

  follow_chain-head :
      (n : ℕ)
      → follow_chain svc replies (prepare_blocks base64 tokens hashes (suc n) 0) 0 0 no_blocks
        ≡ ok r
      → get_elem? r.locations 0 ≡ some (head_location base64 tokens p)
  unfolding prepare_blocks
  follow_chain-head n h =
      let l = head_location base64 tokens p in
      let rest = prepare_blocks base64 tokens hashes n 1 in
      let (added, f) =
        follow_chain-Follows svc replies rest 1 l.hash (add_location no_blocks l) r
          (unfold follow_chain in rw next_location-head at h) in
      ap (λ (ls : List BlockLocation). get_elem? ls 0) f.appended

  by_count :
      (n : ℕ)
      → 1 ≤ n
      → (if n == 0
          then ok no_blocks
          else follow_chain svc replies (prepare_blocks base64 tokens hashes n 0) 0 0 no_blocks)
        ≡ ok r
      → get_elem? r.locations 0 ≡ some (head_location base64 tokens p)
  by_count zero some_block h = absurd (omega arith)
  by_count (suc n) some_block h = follow_chain-head n (ground arith)

-- If the blob of the first block is found, a lookup that returns reads the default version of that
-- blob first, whatever parent hash it was stored with and whatever other versions the blob lists.
pub lookup_tokens-head :
    (svc : BlobService) (replies : ℕ → Bytes → Result Properties) (base64 : Base64Url)
    (tokens hashes : List ℕ) (p : Probe) (r : LookupResult)
    → block_size ≤ length tokens
    → probe_block svc (replies 0 (encode_tokens_to_blob_name base64 (take block_size tokens)))
      ≡ ok (some p)
    → lookup_tokens svc replies base64 tokens hashes ≡ ok r
    → get_elem? r.locations 0
      ≡ some (record {
        hash = p.stored_hash;
        location = encode_tokens_to_blob_name base64 (take block_size tokens);
      })
unfolding lookup_tokens
lookup_tokens-head svc replies base64 tokens hashes p r long found h =
    unfold head_location in
    by_count svc replies base64 tokens hashes p r found (length tokens / block_size) (omega arith) h
