-- ===== src/Client.antt =====
-- go/client/: the connections of the client and the client itself.
pub mod Calls
pub mod Dial
pub mod Dialers
pub mod Dispatch
pub mod Inbox
pub mod Keepalive
pub mod Lock
pub mod Options
pub mod Reconnect
pub mod Requests
pub mod Tcp
pub mod Ws
