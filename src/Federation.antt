-- ===== src/Federation.antt =====
-- js/federation: limits and schedules of the exchange between nodes, cached orders and key histories.
pub mod WantIds
pub mod VolatileStreams
pub mod ChunkFetch
pub mod DedupeSlot
pub mod OrderCache
pub mod EntityKeyChain
