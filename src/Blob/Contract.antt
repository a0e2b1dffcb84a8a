-- ===== src/Blob/Contract.antt =====
-- What the storage library relies on of the Azure Blob service while no other client writes and no
-- request fails for another reason: the documented answers of the conditional operations.
use kv_store_v.Base.{
  Bool, true, false, Option, none, some, ◌≡◌, Bytes, codes, equal, if◌then◌else◌, ok, throw, Status,
  conflict, storage_exception,
}
use kv_store_v.Blob.Service.{BlobService, Properties, Download, Metadata}

-- A stored blob, as a client sees it.
pub record Stored : Type 0 where
  pub body : Bytes
  pub metadata : Metadata
  pub etag : Bytes

abbrev pub properties_of : Stored → Properties
properties_of b = record { etag = b.etag; metadata = b.metadata }

abbrev pub download_of : Stored → Download
download_of b = record { body = b.body; metadata = b.metadata }

pub record BlobContract (svc : BlobService) : Type 0 where
  pub blob : Bytes → svc.State → Option Stored
  -- the status of a request for a blob that is not there
  pub not_found : Status
  -- the ETag that a write gives
  pub new_etag : Bytes → svc.State → Bytes
  pub properties_found :
      (n : Bytes) (s : svc.State) (b : Stored)
      → blob n s ≡ some b
      → svc.get_properties n s ≡ (ok (properties_of b), s)
  pub download_found :
      (n : Bytes) (s : svc.State) (b : Stored)
      → blob n s ≡ some b
      → svc.download n s ≡ (ok (download_of b), s)
  pub upload_stores :
      (n body : Bytes) (m : Metadata) (only_new : Bool) (s : svc.State)
      → blob n s ≡ none
      → (svc.upload n body m only_new s).0 ≡ ok tt
  pub blob-upload :
      (n body : Bytes) (m : Metadata) (only_new : Bool) (s : svc.State) (j : Bytes)
      → blob n s ≡ none
      → blob j (svc.upload n body m only_new s).1 ≡ (
          if equal n j
          then some (record { body = body; metadata = m; etag = new_etag n s })
          else blob j s)
  pub upload_conflict :
      (n body : Bytes) (m : Metadata) (s : svc.State) (b : Stored)
      → blob n s ≡ some b
      → svc.upload n body m true s ≡ (throw (storage_exception conflict), s)
  pub set_metadata_stores :
      (n : Bytes) (m : Metadata) (s : svc.State) (b : Stored)
      → blob n s ≡ some b
      → (svc.set_metadata n m b.etag s).0 ≡ ok tt
  pub blob-set_metadata :
      (n : Bytes) (m : Metadata) (s : svc.State) (b : Stored) (j : Bytes)
      → blob n s ≡ some b
      → blob j (svc.set_metadata n m b.etag s).1 ≡ (
          if equal n j
          then some (record { body = b.body; metadata = m; etag = new_etag n s })
          else blob j s)
  -- the key comparison ignores case
  pub same_key_self : (k : Bytes) → svc.same_key k k ≡ true
  pub same_key_parent : svc.same_key (codes "parenthash") (codes "parentHash") ≡ true
  pub hash_apart :
      (svc.same_key (codes "hash") (codes "parenthash") ≡ false)
      × (svc.same_key (codes "hash") (codes "additionalversions") ≡ false)
      × (svc.same_key (codes "hash") (codes "multiversion") ≡ false)
      × (svc.same_key (codes "hash") (codes "parentHash") ≡ false)
      × (svc.same_key (codes "hash") (codes "partitionKey") ≡ false)
  pub parent_apart :
      (svc.same_key (codes "parenthash") (codes "hash") ≡ false)
      × (svc.same_key (codes "parenthash") (codes "additionalversions") ≡ false)
      × (svc.same_key (codes "parenthash") (codes "multiversion") ≡ false)
      × (svc.same_key (codes "parenthash") (codes "partitionKey") ≡ false)
  pub location_apart :
      (svc.same_key (codes "location") (codes "additionalversions") ≡ false)
      × (svc.same_key (codes "location") (codes "multiversion") ≡ false)
      × (svc.same_key (codes "location") (codes "partitionKey") ≡ false)
  pub location_before :
      (svc.same_key (codes "location") (codes "hash") ≡ false)
      × (svc.same_key (codes "location") (codes "parenthash") ≡ false)
  pub additional_apart : svc.same_key (codes "additionalversions") (codes "multiversion") ≡ false
