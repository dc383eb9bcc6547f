-- ===== src/Dag.antt =====
-- js/dag: summaries of sets of event ids, and their canonical order.
pub mod Merkle
pub mod Heap
pub mod Order
pub mod Event
