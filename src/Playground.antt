-- ===== src/Playground.antt =====
-- KVPlayground/src/main.cpp: the client program that fills and checks the cache.
pub mod Buffer
pub mod Packing
pub mod Flush
pub mod Response
pub mod Stored
pub mod Stats
pub mod Percentile
pub mod Validation
pub mod Conversation
mod Tests
