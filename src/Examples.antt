-- ===== src/Examples.antt =====
-- Concrete instances of the theorems.
pub mod Stored
pub mod Protocols
pub mod Packets
pub mod PacketsV2
pub mod Connections
pub mod Clients
pub mod Sessions
pub mod Calls
