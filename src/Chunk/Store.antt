-- ===== src/Chunk/Store.antt =====
-- internal/chunk/store.go. A Store value is the file, the bitfield, the count and the map of waiters;
-- the channel that a waiter blocks on is its chunk index, and `woken` lists the channels closed.
-- Each operation here runs without interleaving.
pub mod Defs
pub mod Reads
pub mod Missing
pub mod Integrity
pub mod Download
pub mod Lifecycle
pub mod Progress
pub mod Serving
pub mod Streaming
