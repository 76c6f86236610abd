-- ===== src/Client/Keepalive.antt =====
-- go/client/client.go: the loop of `keepalive`, which looks for the answer to its pings, pings, and
-- reconnects when either fails.
pub mod Silence
use openapi_protocol.Base.{
  ℕ, ◌+◌, ltb, not, List, [], ◌∷◌, Bool, true, false, ◌==◌, ◌&&◌, ◌||◌, if◌then◌else◌,
}
use openapi_protocol.Packet.Kinds.{Decoders, ControlError}
use openapi_protocol.Client.Reconnect.{
  AuthInfo, Conn, no_conn, open_conn, closed_conn, Session, Attempt, reconnecting,
}

-- `pings` counts the pings written. Times and `keepalive_timeout` are in nanoseconds.
pub record Heart : Type 0 where
  pub session : Session
  pub last_pong_at : ℕ
  pub pings : ℕ

-- What one round of the loop meets: whether its `select` would take a closed `closeCh`, and of a tick
-- the time, the request id that it would take, whether building and writing a
-- ping succeeds, whether another goroutine is reconnecting, and else what the attempts to reconnect
-- meet.
pub record Tick : Type 0 where
  pub sees_close : Bool
  pub now : ℕ
  pub id : ℕ
  pub writes : Bool
  pub busy : Bool
  pub attempts : List Attempt

-- `check` reports that no pong came for too long.
unfoldable pub check_fails : ℕ → ℕ → Heart → Bool
check_fails keepalive_timeout now h =
    not (h.session.last_keepalive_id == 0) && ltb (h.last_pong_at + keepalive_timeout) now

unfoldable pub is_no_conn : Conn → Bool
is_no_conn no_conn = true
is_no_conn c = false

unfoldable pub pinged : ℕ → Heart → Heart
pinged id h = record h {
  session = record h.session { last_keepalive_id = id };
  pings = h.pings + 1;
}

-- `handlePong`
unfoldable pub ponged : ℕ → Heart → Heart
ponged now h = record h { last_pong_at = now }

module _ (decoders : Decoders ControlError) (auth_decoders : Decoders AuthInfo) (max : ℕ) where
  unfoldable pub reconnected : Tick → Heart → Heart
  reconnected t h =
      if t.busy
      then h
      else record h { session = (reconnecting decoders auth_decoders max t.attempts h.session).0 }

  -- `ping`, which does nothing without a connection or while another goroutine is reconnecting, and
  -- what follows its error.
  unfoldable pub ping : Tick → Heart → Heart
  ping t h =
      if t.busy || is_no_conn h.session.conn
      then h
      else if t.writes
      then pinged t.id h
      else reconnected t h

module _ (decoders : Decoders ControlError) (auth_decoders : Decoders AuthInfo)
    (max keepalive_timeout : ℕ) where
  unfoldable pub tick : Tick → Heart → Heart
  tick t h =
      if check_fails keepalive_timeout t.now h
      then reconnected decoders auth_decoders max t h
      else ping decoders auth_decoders max t h

  unfoldable pub keepalive : List Tick → Heart → Heart
  keepalive [] h = h
  keepalive (t ∷ ts) h =
      let rest = keepalive ts (tick t h) in if h.session.closed && t.sees_close then h else rest
