-- ===== src/Client/Keepalive/Silence.antt =====
-- What becomes of a client that missed a pong.
use openapi_protocol.Base.{
  ◌∙◌, ℕ, ◌+◌, ◌≤◌, ◌<◌, ltb, leb, ◌≡◌, refl, arith, List, [], ◌∷◌, true, false, ◌==◌, ◌&&◌, Option,
  none, some, Bool-cases, inl, inr,
}
use openapi_protocol.Packet.Kinds.{Decoders, ControlError}
use openapi_protocol.Client.Reconnect.{
  AuthInfo, Session, Fault, hit_max_reconnect, Attempt, Ending, dial, authorize, reconnect, close,
  shut_down, go_on, reconnecting,
}
use openapi_protocol.Client.Keepalive.{Heart, Tick, check_fails, reconnected, tick, keepalive}

-- A session without an authorization, whose last ping had the id `id`.
record IsBare (id : ℕ) (s : Session) : Type 0 where
  bare : s.auth_info ≡ none
  kept : s.last_keepalive_id ≡ id

module _ (decoders : Decoders ControlError) (auth_decoders : Decoders AuthInfo) (id : ℕ) where
  dial-IsBare :
      (a : Attempt) (s : Session) → IsBare id s → IsBare id (dial decoders auth_decoders a s).0
  unfolding dial authorize
  dial-IsBare a s v = elim (Bool-cases a.dials) [
    | inl e ↦ simp (e, v.bare) (record { bare = refl; kept = v.kept })
    | inr e ↦ simp e (record { bare = v.bare; kept = v.kept })
  ]

  reconnect-IsBare :
      (max : ℕ) (a : Attempt) (s : Session)
      → IsBare id s
      → IsBare id (reconnect decoders auth_decoders max a s).0
  unfolding reconnect
  reconnect-IsBare max a s v = elim (Bool-cases (ltb 0 max && leb max s.reconnect_count)) [
    | inl e ↦ rw e v
    | inr e ↦ rw e (dial-IsBare a _ (record { bare = v.bare; kept = v.kept }))
  ]

  go_on-IsBare :
      (rest : Session × Ending) (s : Session) (f : Option Fault)
      → IsBare id rest.0
      → IsBare id s
      → IsBare id (go_on decoders auth_decoders rest s f).0
  unfolding go_on close shut_down
  go_on-IsBare rest s none w v = v
  go_on-IsBare rest s (some hit_max_reconnect) w v = elim (Bool-cases s.closed) [
    | inl e ↦ simp e v
    | inr e ↦ simp e (record { bare = v.bare; kept = v.kept })
  ]
  go_on-IsBare rest s (some f) w v = w

  reconnecting-IsBare :
      (max : ℕ) (attempts : List Attempt) (s : Session)
      → IsBare id s
      → IsBare id (reconnecting decoders auth_decoders max attempts s).0
  unfolding reconnecting
  reconnecting-IsBare max [] s v = v
  reconnecting-IsBare max (a ∷ more) s v =
      let r = reconnect decoders auth_decoders max a s in
      let w = reconnect-IsBare max a s v in
      go_on-IsBare (reconnecting decoders auth_decoders max more r.0) r.0 r.1
        (reconnecting-IsBare max more r.0 w) w

  reconnected-IsBare :
      (max : ℕ) (t : Tick) (h : Heart)
      → IsBare id h.session
      → IsBare id (reconnected decoders auth_decoders max t h).session
        × ((reconnected decoders auth_decoders max t h).last_pong_at ≡ h.last_pong_at)
        × ((reconnected decoders auth_decoders max t h).pings ≡ h.pings)
  unfolding reconnected
  reconnected-IsBare max t h v = elim (Bool-cases t.busy) [
    | inl e ↦ simp e (v, refl, refl)
    | inr e ↦ simp e (reconnecting-IsBare max t.attempts h.session v, refl, refl)
  ]

-- The ticks of a time after `from`.
unfoldable pub AllAfter : ℕ → List Tick → Type 0
AllAfter from [] = Unit
AllAfter from (t ∷ ts) = (from < t.now) × AllAfter from ts

module _ (decoders : Decoders ControlError) (auth_decoders : Decoders AuthInfo)
    (max keepalive_timeout : ℕ) where
  -- On a client that has no authorization, which pinged once and then got no pong for the time that
  -- `KeepaliveTimeout` allows, no later tick writes a ping as long as no pong comes, even where it
  -- reconnects with success.
  pub keepalive-silent :
      (ts : List Tick) (h : Heart)
      → h.session.auth_info ≡ none
      → 1 ≤ h.session.last_keepalive_id
      → AllAfter (h.last_pong_at + keepalive_timeout) ts
      → (keepalive decoders auth_decoders max keepalive_timeout ts h).pings ≡ h.pings
  unfolding keepalive tick check_fails AllAfter
  keepalive-silent [] h none_yet one after = refl
  keepalive-silent (t ∷ ts) h none_yet one after =
      let w =
        reconnected-IsBare decoders auth_decoders h.session.last_keepalive_id max t h
          (record { bare = none_yet; kept = refl }) in
      let pinged : (h.session.last_keepalive_id == 0) ≡ false = ground (arith, one) in
      let late : ltb (h.last_pong_at + keepalive_timeout) t.now ≡ true = ground (arith, after.0) in
      let rest =
        keepalive-silent ts (reconnected decoders auth_decoders max t h) w.0.bare (rw w.0.kept one)
          (rw w.1 after.1) in
      elim (Bool-cases (h.session.closed && t.sees_close)) [
        | inl e ↦ simp e refl
        | inr e ↦ simp (e, pinged, late) (rest ∙ w.2)
      ]
