-- ===== src/Link.antt =====
-- js/link: framing and the send queues of a link.
pub mod Frame
pub mod Reassembler
pub mod ChannelMux
