-- ===== src/Tests.antt =====
-- The theorems of the library at concrete inputs.
mod Caches
mod Wire
mod Events
mod Access
mod Exchange
mod Ordering
mod Admission
mod Retention
mod Locks
mod Keys
mod Waits
