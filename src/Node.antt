-- ===== src/Node.antt =====
-- js/node: what a node keeps.
pub mod Retention
