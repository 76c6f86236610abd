-- ===== src/Client/Dispatch.antt =====
-- go/client/client.go: what a client does with a packet that its connection hands it. `H` is the
-- type of the callbacks; what the client does is a list of effects, in their order.
pub mod Routes
pub mod Subscribers
use openapi_protocol.Base.{
  ℕ, List, [], ◌∷◌, ◌++◌, Bool, true, false, ◌==◌, ◌||◌, if◌then◌else◌, Option, none, some,
}
use openapi_protocol.Base.Result.{Result, ok, err, panic}
use openapi_protocol.Metadata.{Metadata}
use openapi_protocol.Context.{Context}
use openapi_protocol.Packet.{Packet}
use openapi_protocol.Packet.Build.{Encoders, Body, bytes, new_response, with_request_id}
use openapi_protocol.Packet.Kinds.{
  Commands, is_control, is_close, is_auth, is_reconnect, is_ping, is_pong, is_push, is_response,
  status_success,
}

-- `call` runs a callback on a packet, `write` sends one, `to_request` is `handleResponse`,
-- `pong_seen` sets `lastPongAt`, `close_conn` closes the connection; `crash` is a panic.
pub data Effect (H : Type 0) : Type 0 where
  call : H → Packet → Effect H
  write : Packet → Effect H
  to_request : Packet → Effect H
  pong_seen : Effect H
  close_conn : Effect H
  reconnecting : Effect H
  crash : Effect H

pub record Handlers (H : Type 0) : Type 0 where
  pub on_ping : Option H
  pub on_pong : Option H
  pub subs : List (ℕ × List H)

module _ {H : Type 0} where
  -- `subs[cmd]`, the empty list where there is no entry.
  unfoldable pub subs_of : ℕ → List (ℕ × List H) → List H
  subs_of cmd [] = []
  subs_of cmd ((j, hs) ∷ es) = if j == cmd then hs else subs_of cmd es

  -- `subs[cmd] = append(subs[cmd], sub)`, or a new entry.
  unfoldable pub add_sub : ℕ → H → List (ℕ × List H) → List (ℕ × List H)
  add_sub cmd sub [] = (cmd, sub ∷ []) ∷ []
  add_sub cmd sub ((j, hs) ∷ es) =
      let rest = add_sub cmd sub es in
      if j == cmd then (j, hs ++ (sub ∷ [])) ∷ es else (j, hs) ∷ rest

  unfoldable pub subscribe : ℕ → H → Handlers H → Handlers H
  subscribe cmd sub h = record h { subs = add_sub cmd sub h.subs }

  unfoldable pub call_each : List H → Packet → List (Effect H)
  call_each [] p = []
  call_each (sub ∷ subs) p = call sub p ∷ call_each subs p

  unfoldable pub call_some : Option H → Packet → List (Effect H)
  call_some none p = []
  call_some (some f) p = call f p ∷ []

  -- `handlePing` writes the packet without a look at the error.
  unfoldable pub write_built : Result Packet → List (Effect H)
  write_built (ok p) = write p ∷ []
  write_built (err e) = crash ∷ []
  write_built panic = crash ∷ []

  unfoldable pub handle_push : Handlers H → Packet → List (Effect H)
  handle_push h p = call_each (subs_of p.metadata.cmd_code h.subs) p

  unfoldable pub handle_pong : Handlers H → Packet → List (Effect H)
  handle_pong h p = call_some h.on_pong p ++ (pong_seen ∷ [])

  unfoldable pub close_by_server : List (Effect H)
  close_by_server = close_conn ∷ (reconnecting ∷ [])

-- `need` is what `NeedHandleControl` of the connection returns.
module _ {H V Header A : Type 0} (encoders : Encoders V) (commands : Commands) (need : Bool) where
  unfoldable pub handle_ping : Context Header A → Handlers H → Packet → List (Effect H)
  handle_ping c h p =
      let res =
        new_response encoders c commands.heartbeat status_success (bytes p.body)
          (with_request_id p.metadata.request_id ∷ []) in
      let answered = if need then write_built res else [] in call_some h.on_ping p ++ answered

  unfoldable pub handle_control : Context Header A → Handlers H → Packet → List (Effect H)
  handle_control c h p =
      if is_ping commands p
      then handle_ping c h p
      else if is_pong commands p
      then handle_pong h p
      else if is_close commands p
      then close_by_server
      else if is_auth commands p || is_reconnect commands p
      then to_request p ∷ []
      else []

  -- `onPacket` of a packet, or of the error that `none` stands for.
  unfoldable pub on_packet : Context Header A → Handlers H → Option Packet → List (Effect H)
  on_packet c h none = reconnecting ∷ []
  on_packet c h (some p) =
      if is_control commands p
      then handle_control c h p
      else if is_push p.metadata.type
      then handle_push h p
      else if is_response p.metadata.type
      then to_request p ∷ []
      else []
