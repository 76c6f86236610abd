-- ===== src/Protocol.antt =====
-- go/protocol.go: the handshake frame, the registry of protocols and the options of `Pack`.
-- `Handshake.Pack` is `Handshake.pack`, `Register` is `Registry.register`, `GetProtocol` is
-- `Registry.get_protocol`, `NewPackOptions` is `Options.new_pack_options`.
pub mod Handshake
pub mod Registry
pub mod Options
