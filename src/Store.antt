-- ===== src/Store.antt =====
-- KVService/src/AzureStorageKVStoreLibV2.cpp: the operations of the storage library.
pub mod Lookup
pub mod Read
pub mod Write
pub mod MultiNic
mod Tests
