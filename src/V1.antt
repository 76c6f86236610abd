-- ===== src/V1.antt =====
-- go/v1: version 1 of the protocol, its header and its packets.
pub mod Header
pub mod Packet
pub mod Stream
