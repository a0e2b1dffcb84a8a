-- ===== src/Service.antt =====
-- KVService/src/reactors: the gRPC service's handlers, one reactor per call.
pub mod Messages
pub mod Streaming
pub mod Unary
mod Tests
