-- ===== src/Client/Reconnect.antt =====
-- go/client/client.go: how a client authorizes itself and replaces a connection that is lost. What
-- the peer and the clock do in one attempt is an `Attempt`; `decoders` read a `control.Error` and
-- `auth_decoders` a `control.AuthResponse`.
pub mod Attempts
pub mod Authorized
use openapi_protocol.Base.{
  ℕ, zero, suc, ◌+◌, ◌*◌, ◌/◌, ◌%◌, ltb, leb, List, [], ◌∷◌, Bool, true, false, ◌==◌, ◌&&◌,
  if◌then◌else◌, Option, none, some,
}
use openapi_protocol.Metadata.{Metadata}
use openapi_protocol.Packet.{Packet}
use openapi_protocol.Packet.Kinds.{
  Decoders, ControlError, LbError, packet_err, unmarshal, status_unauthenticated,
}

-- The fields of `control.AuthResponse` that the client reads; `expires` is in milliseconds.
pub record AuthInfo : Type 0 where
  pub session_id : List ℕ
  pub expires : ℕ

-- What `c.conn` is: nil, a connection, or one that is closed.
pub data Conn : Type 0 where
  no_conn open_conn closed_conn : Conn

pub record Session : Type 0 where
  pub conn : Conn
  pub auth_info : Option AuthInfo
  pub reconnect_count : ℕ
  pub last_keepalive_id : ℕ
  pub closed : Bool

pub data Fault : Type 0 where
  hit_max_reconnect dial_failed token_failed auth_failed auth_unreadable : Fault
  reconnect_failed reconnect_unreadable : Fault

-- `AuthTokenGetter`: nil, or a function that fails or returns a token.
pub data Token : Type 0 where
  no_getter no_token has_token : Token

-- What a request of `Do` meets: an error of its own, its time limit included, or a packet.
pub data Answer : Type 0 where
  unanswered : Answer
  answered : Packet → Answer

-- `now` is the time of `isAuthExpired`, in nanoseconds.
pub record Attempt : Type 0 where
  pub dials : Bool
  pub now : ℕ
  pub token : Token
  pub auth_answer : Answer
  pub reconnect_answer : Answer

-- `isAuthExpired` of the value of `Expires`: the seconds and the milliseconds make a time, ten
-- seconds before which the session counts as expired.
unfoldable pub is_auth_expired : ℕ → ℕ → Bool
is_auth_expired expires now =
    leb (expires / 1000 * 1000000000 + expires % 1000 * 1000000) (now + 10 * 1000000000)

unfoldable pub close_conn : Conn → Conn
close_conn no_conn = no_conn
close_conn c = closed_conn

unfoldable pub unless_err : Packet → Option LbError → Option Packet
unless_err p none = some p
unless_err p (some e) = none

module _ (decoders : Decoders ControlError) (auth_decoders : Decoders AuthInfo) where
  -- The packet that `Do` returns with a nil error.
  unfoldable pub do_request : Answer → Option Packet
  do_request unanswered = none
  do_request (answered p) = unless_err p (packet_err decoders p)

  -- `auth`, from the response on.
  unfoldable pub store_auth : Session → Fault → Option AuthInfo → Session × Option Fault
  store_auth s f none = (s, some f)
  store_auth s f (some info) = (record s { auth_info = some info }, none)

  unfoldable pub read_auth : Session → Option Packet → Session × Option Fault
  read_auth s none = (s, some auth_failed)
  read_auth s (some p) = store_auth s auth_unreadable (unmarshal auth_decoders p)

  unfoldable pub auth : Token → Answer → Session → Session × Option Fault
  auth no_getter answer s = (s, none)
  auth no_token answer s = (s, some token_failed)
  auth has_token answer s = read_auth s (do_request answer)

  unfoldable pub resume : Session → Option AuthInfo → Session × Option Fault
  resume s none = (s, some reconnect_unreadable)
  resume s (some info) =
      (record s { auth_info = some info; reconnect_count = 0; last_keepalive_id = 0 }, none)

  -- `reconnectDial`, after its request.
  unfoldable pub read_reconnect : Attempt → Session → Option Packet → Session × Option Fault
  read_reconnect a s none = (s, some reconnect_failed)
  read_reconnect a s (some p) =
      if p.metadata.status_code == status_unauthenticated
      then auth a.token a.auth_answer s
      else resume s (unmarshal auth_decoders p)

  unfoldable pub reconnect_dial : Attempt → Session → Session × Option Fault
  reconnect_dial a s = read_reconnect a s (do_request a.reconnect_answer)

  -- `reconnect` once it has dialled.
  unfoldable pub authorize : Attempt → Session → Option AuthInfo → Session × Option Fault
  authorize a s none = (s, none)
  authorize a s (some info) =
      if is_auth_expired info.expires a.now
      then auth a.token a.auth_answer s
      else reconnect_dial a s

  -- `dialler` returns a nil connection with its error.
  unfoldable pub dial : Attempt → Session → Session × Option Fault
  dial a s =
      if a.dials
      then authorize a (record s { conn = open_conn }) s.auth_info
      else (record s { conn = no_conn }, some dial_failed)

  unfoldable pub reconnect : ℕ → Attempt → Session → Session × Option Fault
  reconnect max a s =
      if ltb 0 max && leb max s.reconnect_count
      then (s, some hit_max_reconnect)
      else dial a (record s { reconnect_count = s.reconnect_count + 1; conn = close_conn s.conn })

-- `Close` of the client, up to its call of the callback of `OnClose`. On a client that is closed,
-- `close(c.closeCh)` panics, which is `none`.
unfoldable pub close : Session → Option Session
close s = if s.closed then none else some (record s { closed = true; conn = close_conn s.conn })

-- How the loop of `reconnecting` ends: `crashed` by the panic of `Close`; `going` means that the
-- attempts of the list are over.
pub data Ending : Type 0 where
  reconnected gave_up crashed going : Ending

-- The end of the loop by `Close`.
unfoldable pub shut_down : Session → Option Session → Session × Ending
shut_down s none = (s, crashed)
shut_down s (some s') = (s', gave_up)

module _ (decoders : Decoders ControlError) (auth_decoders : Decoders AuthInfo) where
  unfoldable pub go_on : Session × Ending → Session → Option Fault → Session × Ending
  go_on rest s none = (s, reconnected)
  go_on rest s (some hit_max_reconnect) = shut_down s (close s)
  go_on rest s (some f) = rest

  unfoldable pub reconnecting : ℕ → List Attempt → Session → Session × Ending
  reconnecting max [] s = (s, going)
  reconnecting max (a ∷ more) s =
      let r = reconnect decoders auth_decoders max a s in go_on (reconnecting max more r.0) r.0 r.1
