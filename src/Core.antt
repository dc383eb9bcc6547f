-- ===== src/Core.antt =====
-- js/core: the primitives that every layer uses.
pub mod Hlc
pub mod BytesCodec
pub mod HexIds
pub mod CanonicalJson
