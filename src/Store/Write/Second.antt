-- ===== src/Store/Write/Second.antt =====
-- A second version of a block: where WriteAsync puts it, and how Lookup and ReadAsync find it.
use kv_store_v.Base.{
  ℕ, suc, ◌<◌, ◌≡◌, ◌≢◌, refl, ap, true, false, Bool-cases, inl, inr, [], ◌∷◌, Option, some, none,
  All, arith, Bytes, codes, empty, equal, equal_self, equal_sound, length, ok, Result, word, npos,
  to_string, stoull-to_string,
}
use kv_store_v.Types.{PromptChunk, BlockLocation, empty_chunk}
use kv_store_v.Blob.Name.{Base64Url, encode_tokens_to_blob_name}
use kv_store_v.Blob.Versions.{
  AdditionalVersion, parse_additional_versions, serialize_additional_versions,
}
use kv_store_v.Blob.Versions.RoundTrip.{IsWritable}
use kv_store_v.Blob.Versions.Loop.{parse-serialize}
use kv_store_v.Blob.Service.{BlobService, metadata_find}
use kv_store_v.Blob.Contract.{Stored, BlobContract}
use kv_store_v.Store.Lookup.{
  Probe, hash_or_zero, read_metadata, probe_block, find_version, choose_version, next_location,
}
use kv_store_v.Store.Read.{read_download, read_reply, read_async}
use kv_store_v.Store.Write.First.{find_hash, find_parent_camel, find_none}
use kv_store_v.Store.Write.{
  additional_version, chunk_metadata, content, to_dict, lists_version, evict, attempt, retry_loop,
  add_version, write_chunk, write_async, swallow,
}
use kv_store_v.Store.Write.Listed.{listed_metadata, published, no_list, other_version}

module _ (svc : BlobService) (c : BlobContract svc) (base64 : Base64Url) (guid : Bytes)
    (first second : PromptChunk) (s : svc.State) (b : Stored)
    (present : c.blob (encode_tokens_to_blob_name base64 second.tokens) s ≡ some b)
    (is_first : b.metadata ≡ chunk_metadata first (encode_tokens_to_blob_name base64 second.tokens))
    (absent : c.blob guid s ≡ none) (first_fits : first.parent_hash < word)
    (second_fits : second.parent_hash < word) (apart : first.parent_hash ≢ second.parent_hash) where
  abbrev name : Bytes
  name = encode_tokens_to_blob_name base64 second.tokens

  abbrev version : AdditionalVersion
  version = record { hash = second.hash; parent_hash = second.parent_hash; location = guid }

  abbrev versions : Bytes
  versions = serialize_additional_versions (version ∷ [])

  abbrev uploaded : svc.State
  uploaded = (svc.upload guid (content second) (chunk_metadata second guid) false s).1

  abbrev listed : svc.State
  listed = (svc.set_metadata name (listed_metadata first name versions) b.etag uploaded).1

  guid-apart : equal guid name ≡ false
  guid-apart = elim (Bool-cases (equal guid name)) [
    | inl same ↦ absurd (
        ground
          (arith, ap (λ (n : Bytes). c.blob n s) (equal_sound guid name same), present, absent))
    | inr differ ↦ differ
  ]

  still_present : c.blob name uploaded ≡ some b
  still_present = ground (
    arith,
    c.blob-upload guid (content second) (chunk_metadata second guid) false s name absent,
    guid-apart,
    present,
  )

  retry-listed :
      retry_loop svc 5 true name version
        (record {
          current_etag = b.etag;
          metadata = to_dict (chunk_metadata first name);
          existing_versions = [];
        })
        uploaded
      ≡ (ok additional_version, listed)
  unfolding retry_loop attempt evict
  retry-listed = ground (
    arith,
    published first name versions,
    c.set_metadata_stores name (listed_metadata first name versions) uploaded b still_present,
  )

  add_version-listed : add_version svc name guid second s ≡ (ok additional_version, listed)
  unfolding add_version lists_version
  add_version-listed = ground (
    arith,
    c.properties_found name s b present,
    is_first,
    other_version first second name first_fits second_fits apart,
    no_list first name,
    c.upload_stores guid (content second) (chunk_metadata second guid) false s absent,
    retry-listed,
  )

  write_async-listed : write_async svc base64 guid second s ≡ (ok additional_version, listed)
  unfolding write_async write_chunk swallow
  write_async-listed = ground (
    arith,
    c.upload_conflict name (content second) (chunk_metadata second name) s b present,
    add_version-listed,
  )

  abbrev kept : Stored
  kept = record {
    body = b.body;
    metadata = listed_metadata first name versions;
    etag = c.new_etag name uploaded;
  }

  abbrev stored : Stored
  stored = record {
    body = content second;
    metadata = chunk_metadata second guid;
    etag = c.new_etag guid s;
  }

  blob-kept : c.blob name listed ≡ some kept
  blob-kept = ground (
    arith,
    c.blob-set_metadata name (listed_metadata first name versions) uploaded b name still_present,
    equal_self name,
  )

  blob-stored : c.blob guid listed ≡ some stored
  blob-stored = ground (
    arith,
    c.blob-set_metadata name (listed_metadata first name versions) uploaded b guid still_present,
    apart_back,
    c.blob-upload guid (content second) (chunk_metadata second guid) false s guid absent,
    equal_self guid,
  )
    where
      apart_back : equal name guid ≡ false
      apart_back = elim (Bool-cases (equal name guid)) [
        | inl same ↦ absurd (
            ground (
              arith,
              ap (λ (n : Bytes). equal guid n) (equal_sound name guid same),
              guid-apart,
              equal_self guid,
            ))
        | inr differ ↦ differ
      ]

  module _ (first_hash : first.hash < word) (second_hash : second.hash < word)
      (writable : All IsWritable (version ∷ [])) (fits : length versions < npos) where
    abbrev probe : Probe
    probe = record {
      stored_hash = first.hash;
      parent_hash = first.parent_hash;
      multi_version = [];
      additional_versions = versions;
    }

    open c use {
      same_key_self, hash_apart, parent_apart, location_apart, location_before, additional_apart,
    }

    found_listed :
        (metadata_find svc (codes "hash") (listed_metadata first name versions)
          ≡ some (to_string first.hash))
        × (metadata_find svc (codes "parenthash") (listed_metadata first name versions)
            ≡ some (to_string first.parent_hash))
        × (metadata_find svc (codes "multiversion") (listed_metadata first name versions) ≡ none)
        × (metadata_find svc (codes "additionalversions") (listed_metadata first name versions)
            ≡ some versions)
    unfolding metadata_find
    found_listed = (
      ground (arith, location_before, parent_apart, same_key_self (codes "hash")),
      ground (arith, location_before, same_key_self (codes "parenthash")),
      ground (arith, location_apart, parent_apart, hash_apart, additional_apart),
      ground (
        arith,
        location_apart,
        parent_apart,
        hash_apart,
        same_key_self (codes "additionalversions"),
      ),
    )

    probe-listed : probe_block svc (svc.get_properties name listed).0 ≡ ok (some probe)
    unfolding probe_block read_metadata hash_or_zero
    probe-listed = ground (
      arith,
      c.properties_found name listed kept blob-kept,
      found_listed,
      stoull-to_string first.hash first_hash,
      stoull-to_string first.parent_hash first_fits,
    )

    listed_versions : parse_additional_versions versions ≡ ok (version ∷ [])
    listed_versions = parse-serialize (version ∷ []) writable fits

    not_empty : empty versions ≡ false
    unfolding serialize_additional_versions
    not_empty = refl

    choose-second :
        (k : ℕ)
        → choose_version (suc k) second.parent_hash name probe
          ≡ ok (some (record { hash = second.hash; location = guid }))
    unfolding choose_version find_version
    choose-second k = ground (arith, not_empty, listed_versions, apart)

    choose-first :
        (k : ℕ)
        → choose_version (suc k) first.parent_hash name probe
          ≡ ok (some (record { hash = first.hash; location = name }))
    unfolding choose_version
    choose-first k = ground (arith, not_empty)

    read-stored :
        (read_async svc guid listed).0
        ≡ ok (
          true,
          record empty_chunk {
            hash = second.hash;
            parent_hash = second.parent_hash;
            buffer = content second;
            buffer_size = length (content second);
          },
        )
    unfolding read_async read_reply read_download hash_or_zero
    read-stored = ground (
      arith,
      c.download_found guid listed stored blob-stored,
      find_parent_camel svc c second guid,
      find_hash svc c second guid,
      find_none svc c second guid,
      stoull-to_string second.hash second_hash,
      stoull-to_string second.parent_hash second_fits,
    )

    -- How Lookup goes on from a block with hash `parent`, at place `k` behind the first, after the write.
    abbrev next_block : ℕ → ℕ → ℕ → Result (Option BlockLocation)
    next_block k parent expected_hash =
        next_location svc (λ i n. (svc.get_properties n (write_async svc base64 guid second s).1).0)
          (suc k) parent (record { blob_name = name; expected_hash = expected_hash })

    -- Against a service that behaves as documented, with a block stored as a first version and another version
    -- of it, with the same tokens and another parent hash, to be written under a new random name that
    -- is safe in the list: the write ends as an additional version. Behind the first block, Lookup then
    -- finds the new version's blob from the new parent hash, and still the first one from its own;
    -- and ReadAsync of the new blob gives the new version's hash, parent hash and buffer.
    pub write_async-second :
        (k expected_hash : ℕ)
        → ((write_async svc base64 guid second s).0 ≡ ok additional_version)
          × (next_block k second.parent_hash expected_hash
              ≡ ok (some (record { hash = second.hash; location = guid })))
          × (next_block k first.parent_hash expected_hash
              ≡ ok (some (record { hash = first.hash; location = name })))
          × ((read_async svc guid (write_async svc base64 guid second s).1).0
              ≡ ok (
                true,
                record empty_chunk {
                  hash = second.hash;
                  parent_hash = second.parent_hash;
                  buffer = content second;
                  buffer_size = length (content second);
                },
              ))
    unfolding next_location
    write_async-second k expected_hash =
        rw (write_async-listed, probe-listed) (refl, choose-second k, choose-first k, read-stored)
