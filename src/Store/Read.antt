-- ===== src/Store/Read.antt =====
-- AzureStorageKVStoreLibV2::ReadAsync. The task's tokens and completion id are never filled in.
use kv_store_v.Base.{
  Bool, true, false, Bytes, codes, length, Result, ok, throw, storage_exception, ◌>>=◌,
}
use kv_store_v.Types.{PromptChunk, empty_chunk}
use kv_store_v.Blob.Service.{BlobService, Download, metadata_find}
use kv_store_v.Store.Lookup.{hash_or_zero, text_or_empty}

module _ (svc : BlobService) where
  unfoldable pub read_download : Download → Result PromptChunk
  unfolding hash_or_zero metadata_find
  read_download d = do
    parent_hash ← hash_or_zero (metadata_find svc (codes "parentHash") d.metadata)
    hash ← hash_or_zero (metadata_find svc (codes "hash") d.metadata)
    ok (record empty_chunk {
      partition_key = text_or_empty (metadata_find svc (codes "partitionKey") d.metadata);
      parent_hash = parent_hash;
      hash = hash;
      buffer = d.body;
      buffer_size = length d.body;
    })

  -- A StorageException gives (false, PromptChunk()); a bad number in the metadata is thrown.
  unfoldable pub read_reply : Result Download → Result (Bool × PromptChunk)
  unfolding read_download
  read_reply (ok d) = do chunk ← read_download d; ok (true, chunk)
  read_reply (throw (storage_exception status)) = ok (false, empty_chunk)
  read_reply (throw e) = throw e

  unfoldable pub read_async : Bytes → svc.State → Result (Bool × PromptChunk) × svc.State
  unfolding read_reply
  read_async location s = let (reply, s') = svc.download location s in (read_reply reply, s')
