-- ===== src/V2.antt =====
-- Protocol version 2, go/v2/.
pub mod Header
pub mod Packet
pub mod Stream
