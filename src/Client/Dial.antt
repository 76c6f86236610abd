-- ===== src/Client/Dial.antt =====
-- go/client/client.go: `New` with its options, and `Dial`. `C` is the type of Go contexts, `L` that of
-- loggers, and `D` that of dialers; parsing an address is a parameter.
pub mod Outcomes
use openapi_protocol.Base.{
  ℕ, zero, suc, ◌≡◌, ◌≢◌, refl, sym, ap, ◌∙◌, arith, List, [], ◌∷◌, Bool, true, false, not,
  if◌then◌else◌, Option, none, some, ℤ, pos, negsuc, Bool-cases, inl, inr,
}
use openapi_protocol.Packet.Kinds.{Decoders, ControlError}
use openapi_protocol.Client.Dialers.{get_dialer}
use openapi_protocol.Client.Reconnect.{
  AuthInfo, no_conn, open_conn, Session, Fault, dial_failed, Token, no_getter, Answer, auth,
}

pub record Setup (C L : Type 0) : Type 0 where
  pub context : Option C
  pub logger : Option L
  pub connect_metadata : List (List ℕ × List ℕ)

abbrev pub ClientOption : Type 0 → Type 0 → Type 0
ClientOption C L = Setup C L → Setup C L

unfoldable pub or_default : {X : Type 0} → X → Option X → X
or_default x none = x
or_default x (some y) = y

module _ {C L : Type 0} where
  unfoldable pub with_context : C → ClientOption C L
  with_context ctx c = record c { context = some ctx }

  unfoldable pub with_logger : L → ClientOption C L
  with_logger l c = record c { logger = some l }

  unfoldable pub with_connect_metadata : List (List ℕ × List ℕ) → ClientOption C L
  with_connect_metadata m c = record c { connect_metadata = m }

  unfoldable pub apply_each : List (ClientOption C L) → Setup C L → Setup C L
  apply_each [] c = c
  apply_each (opt ∷ opts) c = apply_each opts (opt c)

  -- `New`, with what `context.Background()` gives and the default logger.
  unfoldable pub new_setup : C → L → List (ClientOption C L) → Setup C L
  new_setup background default_logger opts =
      let c = apply_each opts (record { context = none; logger = none; connect_metadata = [] }) in
      record c {
        context = some (or_default background c.context);
        logger = some (or_default default_logger c.logger);
      }

-- `New`: what a session starts with.
abbrev pub new_session : Session
new_session = record {
  conn = no_conn;
  auth_info = none;
  reconnect_count = 0;
  last_keepalive_id = 0;
  closed = false;
}

pub data DialFault : Type 0 where
  bad_address no_dialer : DialFault
  failed : Fault → DialFault

-- What a call of `Dial` meets: the scheme of the address, if it can be parsed, whether the dialer
-- connects, and the token and the answer of `auth`.
pub record Meeting : Type 0 where
  pub scheme : Option (List ℕ)
  pub dials : Bool
  pub token : Token
  pub auth_answer : Answer

-- The session, whether the loop of `keepalive` runs, and the error.
abbrev pub DialResult : Type 0
DialResult = Session × Bool × Option DialFault

unfoldable pub is_zero : ℤ → Bool
is_zero (pos zero) = true
is_zero (pos (suc n)) = false
is_zero (negsuc n) = false

unfoldable pub fault_of : Option Fault → Option DialFault
fault_of none = none
fault_of (some f) = some (failed f)

module _ (decoders : Decoders ControlError) (auth_decoders : Decoders AuthInfo)
    (keepalive : ℤ) where
  -- From the connection on.
  unfoldable pub dialled : Meeting → Session → DialResult
  dialled m s =
      let r = auth decoders auth_decoders m.token m.auth_answer (record s { conn = open_conn }) in
      (r.0, not (is_zero keepalive), fault_of r.1)

  unfoldable pub dial_with : {D : Type 0} → Meeting → Session → Option D → DialResult
  dial_with m s none = (s, false, some no_dialer)
  dial_with m s (some dialer) =
      if m.dials
      then dialled m s
      else (record s { conn = no_conn }, false, some (failed dial_failed))

  unfoldable pub dial_scheme :
      {D : Type 0} → List (List ℕ × D) → Meeting → Session → Option (List ℕ) → DialResult
  dial_scheme dialers m s none = (s, false, some bad_address)
  dial_scheme dialers m s (some scheme) = dial_with m s (get_dialer scheme dialers)

  -- `Dial`
  unfoldable pub dial : {D : Type 0} → List (List ℕ × D) → Meeting → Session → DialResult
  dial dialers m s = dial_scheme dialers m s m.scheme
