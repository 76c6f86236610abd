-- ===== src/Context.antt =====
-- go/context.go: the state of one connection that the protocols share. `H` is the type of the
-- header that a protocol keeps between two calls of `Unpack`, `A` that of the authorization.
use openapi_protocol.Base.{
  ℕ, ◌+◌, ◌%◌, ◌^◌, List, Bool, true, false, if◌then◌else◌, Option, none, some,
}
use openapi_protocol.Base.Result.{Result, ok, ◌>>=◌}
use openapi_protocol.Protocol.Handshake.{Handshake}
use openapi_protocol.Protocol.Registry.{get_protocol}

pub data PeerSide : Type 0 where
  server_side client_side : PeerSide

-- `last_id` is the counter behind `NextReqId`.
pub record Context (H A : Type 0) : Type 0 where
  pub header : Option H
  pub auth_info : Option A
  pub last_id : ℕ
  pub side : PeerSide
  pub handshaked : Bool
  pub authed : Bool
  pub codec : ℕ
  pub version : ℕ
  pub platform : ℕ
  pub begin_unpack : Bool
  pub closed : Bool
  pub proxyed : Bool

module _ {H A : Type 0} where
  -- `NewContext`
  unfoldable pub new_context : PeerSide → Context H A
  new_context side = record {
    header = none;
    auth_info = none;
    last_id = 0;
    side = side;
    handshaked = false;
    authed = false;
    codec = 0;
    version = 0;
    platform = 0;
    begin_unpack = false;
    closed = false;
    proxyed = false;
  }

  -- `GetRequestIDGen`: an atomic addition to a uint32.
  unfoldable pub next_req_id : Context H A → Context H A × ℕ
  next_req_id c = let id = (c.last_id + 1) % 2 ^ 32 in (record c { last_id = id }, id)

  unfoldable pub set_auth : A → Context H A → Context H A
  set_auth info c = record c { authed = true; auth_info = some info }

  unfoldable pub get_auth : Context H A → Bool × Option A
  get_auth c = if c.authed then (true, c.auth_info) else (false, none)

  unfoldable pub begin : Context H A → Context H A
  begin c = record c { begin_unpack = true }

  unfoldable pub end : Context H A → Context H A
  end c = record c { begin_unpack = false; header = none }

  unfoldable pub set_header : Option H → Context H A → Context H A
  set_header h c = record c { header = h }

  -- `Context.Handshake`: an unknown version leaves the context as it is.
  unfoldable pub handshake :
      {P : Type 0} → List (ℕ × P) → Handshake → Context H A → Result (Context H A)
  handshake manager h c = do
    p ← get_protocol h.version manager
    ok (record c { version = h.version; codec = h.codec; handshaked = true; platform = h.platform })
