-- ===== src/Client/Ws/Heartbeat.antt =====
-- go/client/ws_conn.go: the packets that control messages become. `heartbeat_id` reads the body of a
-- heartbeat: `none` where it is none, `some none` where it has no id. `reason` is the Go value of
-- the `control.Close` that a close message becomes.
use openapi_protocol.Base.{
  ℕ, ◌%◌, ◌^◌, ◌<◌, leb, le→leb, ◌≡◌, refl, arith, List, [], ◌∷◌, ◌++◌, Bool, true, false, ◌==◌,
  Option, some,
}
use openapi_protocol.Base.Result.{Result, ok, ◌>>=◌}
use openapi_protocol.Metadata.{response}
use openapi_protocol.Context.{Context}
use openapi_protocol.Packet.{Packet}
use openapi_protocol.Packet.Build.{
  Encoders, bytes, value, body_bytes, new_metadata, apply_options, with_status_code, new_packet,
  new_push, new_request, new_response,
}
use openapi_protocol.Packet.Kinds.{
  Commands, is_control, is_ping, is_pong, is_request, is_response, status_success,
}
use openapi_protocol.Client.Dispatch.{
  pong_seen, Handlers, call_some, handle_pong, handle_control, on_packet,
}
use openapi_protocol.Client.Dispatch.Routes.{AreControl}

unfoldable pub with_heartbeat_id : Option (Option ℕ) → Packet → Packet
with_heartbeat_id (some (some id)) p = record p {
  metadata = record p.metadata { request_id = id % 2 ^ 32 };
}
with_heartbeat_id beat p = p

module _ {V Header A : Type 0} (encoders : Encoders V) (commands : Commands) where
  -- `onPing` once the pong is written.
  unfoldable pub on_ping : Context Header A → List ℕ → Context Header A × Result Packet
  on_ping c payload = new_request encoders c commands.heartbeat (bytes payload) []

  unfoldable pub on_pong : (List ℕ → Option (Option ℕ)) → Context Header A → List ℕ → Result Packet
  on_pong heartbeat_id c payload =
      new_response encoders c commands.heartbeat status_success (bytes payload) [] >>= λ p.
      ok (with_heartbeat_id (heartbeat_id payload) p)

  unfoldable pub on_close : Context Header A → V → Result Packet
  on_close c reason = new_push encoders c commands.close (value reason) []

module _ {V Header A : Type 0} (encoders : Encoders V) (commands : Commands) where
  on_pong_lem :
      (c : Context Header A) (p : Packet) (payload : List ℕ) (id : ℕ)
      (heartbeat_id : List ℕ → Option (Option ℕ))
      → heartbeat_id payload ≡ some (some id)
      → id < 2 ^ 32
      → on_pong encoders commands heartbeat_id c payload ≡ ok p
      → (p.metadata.request_id ≡ id)
        × ((p.metadata.cmd_code ≡ commands.heartbeat) × (p.metadata.type ≡ response))
  unfolding on_pong with_heartbeat_id new_response new_packet body_bytes new_metadata apply_options
      with_status_code
  on_pong_lem c p payload id heartbeat_id e lt built = ground (arith, e, lt, built)

module _ {H V Header A : Type 0} (encoders : Encoders V) (commands : Commands)
    (control : AreControl commands) where
  -- With the control commands numbered upwards as close, heartbeat, auth and reconnect, a pong message
  -- whose body is a heartbeat with an id below 2^32 becomes a heartbeat response with this id as
  -- its request id, which the client takes for a pong, and nothing else.
  pub on_packet-on_pong :
      (need : Bool) (c : Context Header A) (h : Handlers H) (p : Packet) (payload : List ℕ) (id : ℕ)
      (heartbeat_id : List ℕ → Option (Option ℕ))
      → heartbeat_id payload ≡ some (some id)
      → id < 2 ^ 32
      → on_pong encoders commands heartbeat_id c payload ≡ ok p
      → (p.metadata.request_id ≡ id)
        × (on_packet encoders commands need c h (some p)
            ≡ call_some h.on_pong p ++ (pong_seen ∷ []))
  unfolding on_packet is_control handle_control is_ping is_pong is_request is_response handle_pong
  on_packet-on_pong need c h p payload id heartbeat_id e lt built =
      let (own, (beat, res)) =
        on_pong_lem encoders commands c p payload id heartbeat_id e lt built in
      let low : leb p.metadata.cmd_code commands.reconnect ≡ true =
        le→leb _ _ (omega (arith, control.heartbeat_below, control.auth_below)) in
      let same : (p.metadata.cmd_code == commands.heartbeat) ≡ true = ground (arith, beat) in
      let asked : is_request p.metadata.type ≡ false = rw res refl in
      let answered : is_response p.metadata.type ≡ true = rw res refl in
      (own, simp (low, same, asked, answered) refl)
