-- ===== src/Resolver.antt =====
-- The account resolvers of KVService/src: from a resource name and a container to a store.
pub mod Json
pub mod Account
pub mod Database
pub mod Memory
pub mod Regions
pub mod Cache
mod Tests
