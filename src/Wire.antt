-- ===== src/Wire.antt =====
-- js/wire: what the wires of a room share.
pub mod Wait
