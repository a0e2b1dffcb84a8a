-- ===== src/Blob/Service.antt =====
-- The Azure Blob SDK as the storage library uses it. The SDK is not part of the repository: it is a
-- record of operations that every definition takes as an argument. Each operation maps the state of
-- the container to an answer and a new state, so that a service may also play the other clients.
use kv_store_v.Base.{Bool, List, Bytes, Option, none, some, [], ◌∷◌, Result, if◌then◌else◌}

abbrev pub Metadata : Type 0
Metadata = List (Bytes × Bytes)

pub record Properties : Type 0 where
  pub etag : Bytes
  pub metadata : Metadata

pub record Download : Type 0 where
  pub body : Bytes
  pub metadata : Metadata

pub record BlobService : Type 1 where
  pub State : Type 0
  pub get_properties : Bytes → State → Result Properties × State
  pub download : Bytes → State → Result Download × State
  -- the last argument is the condition IfNoneMatch = Any
  pub upload : Bytes → Bytes → Metadata → Bool → State → Result (Unit {0}) × State
  -- the second text is the condition IfMatch
  pub set_metadata : Bytes → Metadata → Bytes → State → Result (Unit {0}) × State
  pub delete : Bytes → State → Result (Unit {0}) × State
  -- the key comparison of the SDK's CaseInsensitiveMap
  pub same_key : Bytes → Bytes → Bool

module _ (svc : BlobService) where
  open svc use {same_key}

  -- properties.Value.Metadata.find(key)
  unfoldable pub metadata_find : Bytes → Metadata → Option Bytes
  metadata_find key [] = none
  metadata_find key ((k, v) ∷ m) = if same_key k key then some v else metadata_find key m
