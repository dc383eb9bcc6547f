-- ===== src/Utils.antt =====
-- js/utils: the bounded maps, rate limiters and mutexes that the other components share.
pub mod Lru
pub mod TtlMap
pub mod TokenBucket
pub mod Inflight
pub mod AsyncMutex
