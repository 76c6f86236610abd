-- ===== src/Client/Ws/Messages.antt =====
-- go/client/ws_conn.go: which packets become which messages, and which messages packets. The body of
-- a heartbeat is read by `heartbeat_id`, `none` where it is no heartbeat, and `some none` where it
-- has no id; `code` is the wire form of the reason that `control.Close` gives.
use openapi_protocol.Base.{ℕ, List, [], ◌∷◌, Bool, if◌then◌else◌}
use openapi_protocol.Base.Result.{Result, ok, err, panic}
use openapi_protocol.Packet.{Packet}
use openapi_protocol.Packet.Kinds.{Commands, is_close, is_ping}
use openapi_protocol.Client.Inbox.Channel.{add_packet}

-- What `Write` does on an open connection: it refuses, sends a control message past the queue, or
-- packs the packet for the queue.
pub data Outgoing : Type 0 where
  refused : Outgoing
  ping_message : List ℕ → Outgoing
  close_message : List ℕ → Outgoing
  packed : Packet → Outgoing

unfoldable pub write : Commands → Bool → Packet → Outgoing
write commands closed p =
    if closed
    then refused
    else if is_ping commands p
    then ping_message p.body
    else if is_close commands p
    then close_message p.body
    else packed p

pub data Message : Type 0 where
  binary text : List ℕ → Message
  other_message : Message

-- `reading`, from a whole message on; `unpack` is `UnpackBytes` on its connection, and the list at the
-- end is the packet channel, of `size`. An error of `readPacket` is dropped.
module _ {C : Type 0} (unpack : C → List ℕ → C × Result Packet) (size : ℕ) where
  unfoldable pub add_unpacked : Result Packet → List Packet → List Packet
  add_unpacked (ok p) ch = add_packet size p ch
  add_unpacked (err e) ch = ch
  add_unpacked panic ch = ch

  unfoldable pub read_packet : C → List ℕ → List Packet → C × List Packet
  read_packet c msg ch = let r = unpack c msg in (r.0, add_unpacked r.1 ch)

  unfoldable pub read_message : C → Message → List Packet → C × List Packet
  read_message c (binary msg) ch = read_packet c msg ch
  read_message c (text msg) ch = read_packet c msg ch
  read_message c other_message ch = (c, ch)

  -- The loop of `reading`.
  unfoldable pub read_messages : C → List Message → List Packet → C × List Packet
  read_messages c [] ch = (c, ch)
  read_messages c (msg ∷ msgs) ch = let r = read_message c msg ch in read_messages r.0 msgs r.1
