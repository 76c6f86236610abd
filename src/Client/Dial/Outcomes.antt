-- ===== src/Client/Dial/Outcomes.antt =====
-- What `Dial` leaves when it returns, with an error or without one.
use openapi_protocol.Base.{
  ℕ, ◌≡◌, ◌≢◌, refl, List, true, not, Option, none, some, ℤ, Bool-cases, inl, inr,
}
use openapi_protocol.Packet.{Packet}
use openapi_protocol.Packet.Kinds.{Decoders, ControlError}
use openapi_protocol.Client.Dialers.{get_dialer}
use openapi_protocol.Client.Reconnect.{
  AuthInfo, open_conn, Session, Fault, Token, has_token, no_token, no_getter, Answer, store_auth,
  read_auth, auth,
}
use openapi_protocol.Client.Dial.{Meeting, is_zero, fault_of, dialled, dial_with, dial_scheme, dial}

fault_of-none : (f : Option Fault) → fault_of f ≡ none → f ≡ none
unfolding fault_of
fault_of-none none e = refl
fault_of-none (some f) e = cc

-- What `auth` leaves of the session `s`: the connection as it was and, without an error, an
-- authorization.
record IsAuthorized (s : Session) (r : Session × Option Fault) : Type 0 where
  conn : r.0.conn ≡ s.conn
  info : r.1 ≡ none → r.0.auth_info ≢ none

module _ (decoders : Decoders ControlError) (auth_decoders : Decoders AuthInfo) where
  store_auth_lem :
      (s : Session) (f : Fault) (info : Option AuthInfo)
      → IsAuthorized s (store_auth decoders auth_decoders s f info)
  unfolding store_auth
  store_auth_lem s f none = record { conn = refl; info = λ e. cc }
  store_auth_lem s f (some info) = record { conn = refl; info = λ e h. cc }

  read_auth_lem :
      (s : Session) (p : Option Packet) → IsAuthorized s (read_auth decoders auth_decoders s p)
  unfolding read_auth
  read_auth_lem s none = record { conn = refl; info = λ e. cc }
  read_auth_lem s (some p) = store_auth_lem s _ _

  auth-conn :
      (token : Token) (answer : Answer) (s : Session)
      → (auth decoders auth_decoders token answer s).0.conn ≡ s.conn
  unfolding auth
  auth-conn no_getter answer s = refl
  auth-conn no_token answer s = refl
  auth-conn has_token answer s = (read_auth_lem s _).conn

  auth-info :
      (answer : Answer) (s : Session)
      → (auth decoders auth_decoders has_token answer s).1 ≡ none
      → (auth decoders auth_decoders has_token answer s).0.auth_info ≢ none
  unfolding auth
  auth-info answer s = (read_auth_lem s _).info

module _ {D : Type 0} (decoders : Decoders ControlError) (auth_decoders : Decoders AuthInfo)
    (keepalive : ℤ) (dialers : List (List ℕ × D)) (m : Meeting) (s : Session) where
  -- Once the dialer has connected, `Dial` leaves the connection open and, unless the interval for it is
  -- zero, the loop of `keepalive` running, even where it returns the error of the authorization; where
  -- it returns none and there is a token, the session has an authorization.
  pub dial-connected :
      (scheme : List ℕ) (dialer : D)
      → m.scheme ≡ some scheme
      → get_dialer scheme dialers ≡ some dialer
      → m.dials ≡ true
      → let r = dial decoders auth_decoders keepalive dialers m s in
        (r.0.conn ≡ open_conn)
        × (r.1 ≡ not (is_zero keepalive))
        × (r.2 ≡ none → m.token ≡ has_token → r.0.auth_info ≢ none)
  unfolding dial dial_scheme dial_with dialled
  dial-connected scheme dialer e g c =
      rw (e, g, c)
        (
          auth-conn decoders auth_decoders m.token m.auth_answer (record s { conn = open_conn }),
          refl,
          λ h t.
              let h' = fault_of-none _ h in
              rw t (
                auth-info decoders auth_decoders m.auth_answer (record s { conn = open_conn })
                  (rw t at h')),
        )

  dial_with-open :
      (o : Option D) → (dial_with decoders auth_decoders keepalive m s o).2 ≡ none → m.dials ≡ true
  unfolding dial_with
  dial_with-open none = λ e. cc
  dial_with-open (some d) = elim (Bool-cases m.dials) [ inl c ↦ λ e. c | inr c ↦ simp c (λ e. cc) ]

  dial_scheme-open :
      (o : Option (List ℕ))
      → (dial_scheme decoders auth_decoders keepalive dialers m s o).2 ≡ none
      → m.dials ≡ true
  unfolding dial_scheme
  dial_scheme-open none e = cc
  dial_scheme-open (some scheme) e = dial_with-open (get_dialer scheme dialers) e

  -- `Dial` returns no error only if it has connected.
  pub dial-open : (dial decoders auth_decoders keepalive dialers m s).2 ≡ none → m.dials ≡ true
  unfolding dial
  dial-open = dial_scheme-open m.scheme
