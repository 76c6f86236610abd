-- ===== src/Client/Requests/Reconnected.antt =====
-- What `reconnect` does to a call that is at its `select`.
use openapi_protocol.Base.{◌≡◌, true, none}
use openapi_protocol.Packet.{Packet}
use openapi_protocol.Client.Requests.{Call}

-- The call `c` finds its channel closed and empty.
record IsCut (call : Call) : Type 0 where
  waits : call.waiting ≡ true
  empty : call.reply ≡ none
  ended : call.closed ≡ true
