-- ===== src/Client/Dispatch/Routes.antt =====
-- Where packets go.
use openapi_protocol.Base.{
  ℕ, ◌<◌, leb, ◌≡◌, refl, arith, List, [], ◌∷◌, ◌++◌, Bool, true, false, ◌==◌, none, some, le→leb,
  ◌⊎◌, inl, inr,
}
use openapi_protocol.Metadata.{request, response}
use openapi_protocol.Context.{Context}
use openapi_protocol.Packet.{Packet}
use openapi_protocol.Packet.Build.{
  Encoders, new_packet, new_metadata, new_response, with_request_id, with_status_code,
  apply_options, body_bytes,
}
use openapi_protocol.Packet.Kinds.{
  Commands, is_control, is_close, is_auth, is_reconnect, is_ping, is_pong, is_push, is_request,
  is_response, status_success,
}
use openapi_protocol.Client.Dispatch.{
  Effect, write, to_request, Handlers, call_some, write_built, handle_ping, handle_control,
  on_packet,
}
use openapi_protocol.Client.Requests.{
  Table, find, update, handle_response, respond, send, fill_channel,
}

-- The numbering of the commands that the client relies on.
pub record AreControl (commands : Commands) : Type 0 where
  pub close_below : commands.close < commands.heartbeat
  pub heartbeat_below : commands.heartbeat < commands.auth
  pub auth_below : commands.auth < commands.reconnect

-- The response to a ping, on a connection that leaves control packets to the client.
unfoldable pub pong_of : {Header A : Type 0} → Commands → Context Header A → Packet → Packet
pong_of commands c p = record {
  metadata = record {
    nonce = 0;
    request_id = p.metadata.request_id;
    cmd_code = commands.heartbeat;
    verify = false;
    gzip = false;
    timeout = 0;
    codec = c.codec;
    status_code = status_success;
    type = response;
    signature = [];
    values = some [];
  };
  body = p.body;
}

-- Among the responses, only those to a heartbeat and the code of `close` do not answer a call.
unfoldable pub AnswersCall : Commands → Packet → Type 0
AnswersCall commands p =
    (p.metadata.type ≡ response)
    × ((p.metadata.cmd_code ≡ commands.auth)
        ⊎ ((p.metadata.cmd_code ≡ commands.reconnect) ⊎ (commands.reconnect < p.metadata.cmd_code)))

module _ {H V Header A : Type 0} (encoders : Encoders V) (commands : Commands)
    (control : AreControl commands) where
  -- With the control commands numbered upwards as close, heartbeat, auth and reconnect, on a
  -- connection that leaves control packets to the client, a heartbeat request goes to the callback for
  -- pings and is answered with a successful heartbeat response that has its request id and its body.
  pub on_packet-ping :
      (c : Context Header A) (h : Handlers H) (p : Packet)
      → p.metadata.cmd_code ≡ commands.heartbeat
      → p.metadata.type ≡ request
      → on_packet encoders commands true c h (some p)
        ≡ call_some h.on_ping p ++ (write (pong_of commands c p) ∷ [])
  unfolding on_packet is_control handle_control is_ping is_request handle_ping new_response
      new_packet body_bytes apply_options with_request_id with_status_code new_metadata write_built
      pong_of
  on_packet-ping c h p e t =
      let low : leb p.metadata.cmd_code commands.reconnect ≡ true =
        le→leb _ _ (omega (arith, control.heartbeat_below, control.auth_below)) in
      let same : (p.metadata.cmd_code == commands.heartbeat) ≡ true = ground (arith, e) in
      rw (low, same, t) refl

  on_packet-response :
      (need : Bool) (c : Context Header A) (h : Handlers H) (p : Packet)
      → AnswersCall commands p
      → on_packet encoders commands need c h (some p) ≡ to_request p ∷ []
  unfolding on_packet is_control handle_control is_ping is_pong is_request is_close is_auth
      is_reconnect is_push is_response AnswersCall
  on_packet-response need c h p (t, inl a) =
      let low : leb p.metadata.cmd_code commands.reconnect ≡ true =
        le→leb _ _ (omega (arith, control.auth_below)) in
      let beat : (p.metadata.cmd_code == commands.heartbeat) ≡ false =
        ground (arith, a, control.heartbeat_below) in
      let close : (p.metadata.cmd_code == commands.close) ≡ false =
        ground (arith, a, control.heartbeat_below, control.close_below) in
      let auth : (p.metadata.cmd_code == commands.auth) ≡ true = ground (arith, a) in
      rw (low, beat, close, auth) refl
  on_packet-response need c h p (t, inr (inl a)) =
      let low : leb p.metadata.cmd_code commands.reconnect ≡ true = le→leb _ _ (omega arith) in
      let beat : (p.metadata.cmd_code == commands.heartbeat) ≡ false =
        ground (arith, a, control.heartbeat_below, control.auth_below) in
      let close : (p.metadata.cmd_code == commands.close) ≡ false =
        ground (arith, a, control.heartbeat_below, control.close_below, control.auth_below) in
      let auth : (p.metadata.cmd_code == commands.auth) ≡ false =
        ground (arith, a, control.auth_below) in
      let again : (p.metadata.cmd_code == commands.reconnect) ≡ true = ground (arith, a) in
      rw (low, beat, close, auth, again) refl
  on_packet-response need c h p (t, inr (inr a)) =
      let high : leb p.metadata.cmd_code commands.reconnect ≡ false = ground (arith, a) in
      rw (high, t) refl

-- The effects on the calls that wait.
unfoldable pub to_table : {H : Type 0} → List (Effect H) → Table → Table
to_table [] t = t
to_table (to_request p ∷ es) t = to_table es (handle_response p t)
to_table (e ∷ es) t = to_table es t

module _ {H V Header A : Type 0} (encoders : Encoders V) (commands : Commands)
    (control : AreControl commands) where
  -- With the control commands numbered upwards as close, heartbeat, auth and reconnect, a response to
  -- an authorization, to a reconnection or to a command above the control commands goes into the
  -- channel of the call that `recvs` has for its request id, when that is open and empty.
  pub on_packet-answers :
      (need : Bool) (c : Context Header A) (h : Handlers H) (p : Packet) (t : Table) (waiter : ℕ)
      → AnswersCall commands p
      → find p.metadata.request_id t.recvs ≡ some waiter
      → (t.calls waiter).closed ≡ false
      → (t.calls waiter).reply ≡ none
      → ((to_table (on_packet encoders commands need c h (some p)) t).calls waiter).reply ≡ some p
  unfolding to_table handle_response respond send fill_channel update
  on_packet-answers need c h p t waiter ans listed ready empty =
      let same : (waiter == waiter) ≡ true = ground arith in
      rw (on_packet-response encoders commands control need c h p ans, listed, ready, empty, same)
        refl
