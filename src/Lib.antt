-- ===== src/Lib.antt =====
-- Verification of the KV store service, its storage library, the gRPC client and the playground.
--
-- The program caches prompt blocks of 128 tokens in Azure Blob Storage. A client cuts its tokens into blocks
-- and writes them over gRPC; the service resolves the account to a store and calls the storage library. A
-- block's blob is named by its tokens; the blocks of a prompt form a chain by their parent hashes, and a
-- block may have several versions, which the metadata of its first blob lists.
--
-- Base: shared names, lists and texts over native numbers, exceptions as values, decimal numbers.
-- Types: KVService/include/KVTypes.h.
-- Config: ServiceConfig of KVService/include/ServiceConfig.h (is_valid, get_validation_error), and in
--   Config/File the provider of KVService/src/FileConfigProvider.cpp (extract_string_value, parse_json, load).
-- Blob: EncodeTokensToBlobName and DecodeBlobNameToTokens (KVService/include/AzureStorageKVStoreLibV2.h),
--   ParseAdditionalVersions and SerializeAdditionalVersions (KVService/src/AzureStorageKVStoreLibV2.cpp),
--   and the Azure service: a record of operations over its own state (Blob/Service), with the documented
--   behaviour that some theorems assume (Blob/Contract) and an instance in memory (Blob/Memory).
-- Store: Lookup, ReadAsync and WriteAsync of KVService/src/AzureStorageKVStoreLibV2.cpp, as lookup_tokens,
--   read_async and write_async. The answers to Lookup's parallel requests are an arbitrary function, so that
--   nothing is assumed on their order or on other clients' writes in between. Store/MultiNic is the socket
--   callback that binds connections to network interfaces.
-- Resolver: KVService/src/StorageDatabaseResolver.cpp (Resolver/Json, Resolver/Database) and
--   KVService/src/InMemoryAccountResolver.cpp (Resolver/Memory). What other calls do between the read lock
--   and the write lock of ResolveStore is a function that resolve_store takes.
-- Service: the reactors of KVService/src/reactors. Service/Unary has the Lookup, Read and Write calls, and
--   Service/Streaming the bidirectional stream as a state machine whose steps are the callbacks and the ends
--   of worker threads. Service/Messages has what they share.
-- Playground: KVPlayground/src/main.cpp. TokenBufferManager (Playground/Buffer), generateSyntheticResponse
--   (Playground/Response), OperationStats and CacheStats (Playground/Stats), validateCacheRetrieval
--   (Playground/Validation), and the turns of runConversation (Playground/Conversation). A turn has the
--   store's calls and the outcomes of its two flushes as arguments. Playground/Stored joins a flush, and
--   Playground/Conversation/Stored a conversation, with the store's WriteAsync, Lookup and ReadAsync.
-- Client: KVClient/src/KVStoreGrpcClient.cpp. ExtractResourceName (Client), Initialize, Lookup, ReadAsync and
--   WriteAsync (Client/Calls), and StreamingReadAsync (Client/Stream), over an arbitrary stub. Where a theorem
--   joins the client with the reactors, gRPC is assumed to deliver the status of Finish, and with OK the
--   response.
-- Server: main of KVService/src/server.cpp up to RunServer: the arguments (Server), the environment's
--   overrides and the configuration (Server/Startup).
--
-- Numbers: a uint64_t is a natural number below 2 ^ 64, and size_t arithmetic wraps around where the code
-- lets it. Fuel: the loops over positions of ParseAdditionalVersions and ExtractRegionStorageMap run on the
-- length of their text, and every round moves the position by at least one; to_string runs on its number;
-- the retry loop of WriteAsync has the source's five rounds.
--
-- Not modelled: log lines and metrics, the clock (elapsed times are arguments), the set-up of the SDK's
-- transport and of gRPC, what stands in memory behind a chunk's buffer where bufferSize is larger, the
-- generated protocol buffer classes, RunServer and the NUMA calls of KVService/src/server.cpp, and of the
-- playground main, the displays, the write times and the functions that nothing calls. The SDK's base 64 and
-- its blob operations, std::hash, std::stoi, std::sort, the sockets, the memory behind the expected tokens and
-- e.what() are parameters.
pub mod Base
pub mod Types
pub mod Config
pub mod Blob
pub mod Store
pub mod Resolver
pub mod Service
pub mod Playground
pub mod Client
pub mod Server
