-- ===== src/Packet/Kinds.antt =====
-- go/packet.go and go/error.go: what a packet says of itself. The command codes of control packets
-- are those of the package `control`, and `decoders` read its `Error` from a body.
use openapi_protocol.Base.{
  ℕ, leb, List, [], Bool, true, false, ◌==◌, ◌&&◌, if◌then◌else◌, Option, none, some,
}
use openapi_protocol.Metadata.{Metadata, PacketType, request, response, push}
use openapi_protocol.Packet.{Packet}

pub record Commands : Type 0 where
  pub close : ℕ
  pub heartbeat : ℕ
  pub auth : ℕ
  pub reconnect : ℕ

unfoldable pub is_request : PacketType → Bool
is_request request = true
is_request t = false

unfoldable pub is_response : PacketType → Bool
is_response response = true
is_response t = false

unfoldable pub is_push : PacketType → Bool
is_push push = true
is_push t = false

module _ (commands : Commands) where
  unfoldable pub is_control : Packet → Bool
  is_control p = leb p.metadata.cmd_code commands.reconnect

  unfoldable pub is_close : Packet → Bool
  is_close p = p.metadata.cmd_code == commands.close

  unfoldable pub is_auth : Packet → Bool
  is_auth p = p.metadata.cmd_code == commands.auth

  unfoldable pub is_reconnect : Packet → Bool
  is_reconnect p = p.metadata.cmd_code == commands.reconnect

  unfoldable pub is_ping : Packet → Bool
  is_ping p = (p.metadata.cmd_code == commands.heartbeat) && is_request p.metadata.type

  unfoldable pub is_pong : Packet → Bool
  is_pong p = (p.metadata.cmd_code == commands.heartbeat) && is_response p.metadata.type

-- The constants of go/status.go run from 0 to 8.
abbrev pub status_success : ℕ
status_success = 0

abbrev pub status_unauthenticated : ℕ
status_unauthenticated = 5

pub record LbError : Type 0 where
  pub status : ℕ
  pub code : ℕ
  pub message : List ℕ

-- What the fields `Code` and `Msg` of a `control.Error` are.
abbrev pub ControlError : Type 0
ControlError = ℕ × List ℕ

-- `json.Unmarshal` and `proto.Unmarshal`, `none` where they fail.
pub record Decoders (T : Type 0) : Type 0 where
  pub from_json : List ℕ → Option T
  pub from_proto : List ℕ → Option T

-- `Packet.Unmarshal` into a message.
unfoldable pub unmarshal : {T : Type 0} → Decoders T → Packet → Option T
unmarshal decoders p =
    if p.metadata.codec == 2
    then decoders.from_json p.body
    else if p.metadata.codec == 1
    then decoders.from_proto p.body
    else none

-- "unknown error, cant unmarshal body"
abbrev pub unknown_error : ControlError
unknown_error = (500, [])

unfoldable pub or_unknown : Option ControlError → ControlError
or_unknown none = unknown_error
or_unknown (some e) = e

unfoldable pub error_of : Metadata → ControlError → LbError
error_of md e = record { status = md.status_code; code = e.0; message = e.1 }

-- `Packet.Err`
unfoldable pub packet_err : Decoders ControlError → Packet → Option LbError
packet_err decoders p =
    let e = error_of p.metadata (or_unknown (unmarshal decoders p)) in
    if is_response p.metadata.type
    then (if p.metadata.status_code == status_success then none else some e)
    else none
