-- ===== src/Blob.antt =====
-- The storage library's view of Azure Blob Storage: blob names, the version list kept in a blob's
-- metadata, and the interface to the service.
pub mod Name
pub mod Versions
pub mod Service
pub mod Contract
pub mod Memory
