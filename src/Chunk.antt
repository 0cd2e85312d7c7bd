-- ===== src/Chunk.antt =====
-- internal/chunk: splitting a file into chunks, the manifest, and the store.
mod Tests
pub mod File
pub mod Chunker
pub mod Regions
pub mod Bitfield
pub mod Manifest
pub mod Counts
pub mod Store
pub mod Threads
