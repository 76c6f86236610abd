-- ===== src/Client/Reconnect/Authorized.antt =====
-- When a client authorizes itself anew.
use openapi_protocol.Base.{ℕ, ◌+◌, ◌*◌, ◌≤◌, ◌≡◌, ◌↔◌, refl, arith, true, false, ◌==◌, some}
use openapi_protocol.Metadata.{response}
use openapi_protocol.Packet.{Packet}
use openapi_protocol.Packet.Kinds.{
  Decoders, ControlError, packet_err, is_response, status_success, status_unauthenticated,
}
use openapi_protocol.Client.Reconnect.{
  AuthInfo, Session, reconnect_failed, answered, Attempt, is_auth_expired, unless_err, do_request,
  read_reconnect, reconnect_dial,
}

-- The session counts as expired from ten seconds before its `Expires` on.
pub is_auth_expired_lem :
    (expires now : ℕ)
    → (is_auth_expired expires now ≡ true) ↔ (expires * 1000000 ≤ now + 10 * 1000000000)
unfolding is_auth_expired
is_auth_expired_lem expires now = ground arith

module _ (decoders : Decoders ControlError) (auth_decoders : Decoders AuthInfo) where
  -- When the server answers a reconnection with the status for an unknown session, the attempt fails
  -- and the session stays as it is: `auth` is not tried, since `Do` has made an error of the response
  -- before its status is looked at.
  pub reconnect_dial-unauthenticated :
      (a : Attempt) (s : Session) (p : Packet)
      → a.reconnect_answer ≡ answered p
      → p.metadata.type ≡ response
      → p.metadata.status_code ≡ status_unauthenticated
      → reconnect_dial decoders auth_decoders a s ≡ (s, some reconnect_failed)
  unfolding reconnect_dial read_reconnect do_request unless_err packet_err is_response
  reconnect_dial-unauthenticated a s p e t st =
      let res : is_response p.metadata.type ≡ true = rw t refl in
      let bad : (p.metadata.status_code == status_success) ≡ false = ground (arith, st) in
      simp (e, res, bad) refl
