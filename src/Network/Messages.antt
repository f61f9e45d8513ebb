-- ===== src/Network/Messages.antt =====
-- network/messages: how messages and packets are written to a buffer and read back.
pub mod Decoder
pub mod Encoder
pub mod Header
pub mod DataMessage
pub mod DiscoveryMessage
pub mod Packet
pub mod Equality
