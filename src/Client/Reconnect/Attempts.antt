-- ===== src/Client/Reconnect/Attempts.antt =====
-- How many attempts the loop of `reconnecting` makes.
use openapi_protocol.Base.{
  ℕ, ◌+◌, ◌≤◌, ◌<◌, ltb, leb, ◌≡◌, ◌≢◌, refl, ◌∙◌, arith, length, List, [], ◌∷◌, true, false, sym,
  ◌==◌, ◌&&◌, Option, none, some, Bool-cases, inl, inr,
}
use openapi_protocol.Packet.{Packet}
use openapi_protocol.Packet.Kinds.{Decoders, ControlError, status_unauthenticated}
use openapi_protocol.Client.Reconnect.{
  AuthInfo, open_conn, Session, Fault, hit_max_reconnect, auth_unreadable, Token, no_getter,
  no_token, has_token, Answer, Attempt, is_auth_expired, store_auth, read_auth, auth, resume,
  read_reconnect, reconnect_dial, authorize, dial, reconnect, close, shut_down, Ending, reconnected,
  gave_up, crashed, go_on, reconnecting,
}

-- What an attempt leaves in the session `s`: an error other than `hit_max_reconnect` and the count as
-- it was, or a connection that is open and a count that is no higher.
data Leaves (s : Session) : Session × Option Fault → Type 0 where
  failed :
      {s' : Session} {f : Fault}
      → f ≢ hit_max_reconnect
      → s'.reconnect_count ≡ s.reconnect_count
      → s'.closed ≡ s.closed
      → Leaves s (s', some f)
  succeeded :
      {s' : Session}
      → s'.conn ≡ s.conn
      → s'.reconnect_count ≤ s.reconnect_count
      → s'.closed ≡ s.closed
      → Leaves s (s', none)

module _ (decoders : Decoders ControlError) (auth_decoders : Decoders AuthInfo) where
  store_auth-Leaves :
      (s : Session) (f : Fault) (info : Option AuthInfo)
      → f ≢ hit_max_reconnect
      → Leaves s (store_auth decoders auth_decoders s f info)
  unfolding store_auth
  store_auth-Leaves s f none ne = failed ne refl refl
  store_auth-Leaves s f (some info) ne = succeeded refl (omega arith) refl

  read_auth-Leaves :
      (s : Session) (p : Option Packet) → Leaves s (read_auth decoders auth_decoders s p)
  unfolding read_auth
  read_auth-Leaves s none = failed (λ e. cc) refl refl
  read_auth-Leaves s (some p) = store_auth-Leaves s auth_unreadable _ (λ e. cc)

  auth-Leaves :
      (token : Token) (answer : Answer) (s : Session)
      → Leaves s (auth decoders auth_decoders token answer s)
  unfolding auth
  auth-Leaves no_getter answer s = succeeded refl (omega arith) refl
  auth-Leaves no_token answer s = failed (λ e. cc) refl refl
  auth-Leaves has_token answer s = read_auth-Leaves s _

  resume-Leaves :
      (s : Session) (info : Option AuthInfo) → Leaves s (resume decoders auth_decoders s info)
  unfolding resume
  resume-Leaves s none = failed (λ e. cc) refl refl
  resume-Leaves s (some info) = succeeded refl (omega arith) refl

  read_reconnect-Leaves :
      (a : Attempt) (s : Session) (p : Option Packet)
      → Leaves s (read_reconnect decoders auth_decoders a s p)
  unfolding read_reconnect
  read_reconnect-Leaves a s none = failed (λ e. cc) refl refl
  read_reconnect-Leaves a s (some p) =
      elim (Bool-cases (p.metadata.status_code == status_unauthenticated)) [
        | inl e ↦ rw e (auth-Leaves a.token a.auth_answer s)
        | inr e ↦ rw e (resume-Leaves s _)
      ]

  authorize-Leaves :
      (a : Attempt) (s : Session) (info : Option AuthInfo)
      → Leaves s (authorize decoders auth_decoders a s info)
  unfolding authorize reconnect_dial
  authorize-Leaves a s none = succeeded refl (omega arith) refl
  authorize-Leaves a s (some info) = elim (Bool-cases (is_auth_expired info.expires a.now)) [
    | inl e ↦ rw e (auth-Leaves a.token a.auth_answer s)
    | inr e ↦ rw e (read_reconnect-Leaves a s _)
  ]

-- What `reconnect` returns on the session `s` with the limit `max`.
data Tried (max : ℕ) (s : Session) : Session × Option Fault → Type 0 where
  refused : 0 < max → max ≤ s.reconnect_count → Tried max s (s, some hit_max_reconnect)
  faulted :
      {s' : Session} {f : Fault}
      → f ≢ hit_max_reconnect
      → s'.reconnect_count ≡ s.reconnect_count + 1
      → s'.closed ≡ s.closed
      → (0 < max → s.reconnect_count < max)
      → Tried max s (s', some f)
  done :
      {s' : Session}
      → s'.conn ≡ open_conn
      → s'.reconnect_count ≤ s.reconnect_count + 1
      → s'.closed ≡ s.closed
      → (0 < max → s.reconnect_count < max)
      → Tried max s (s', none)

-- An attempt on a session whose count is one more and whose connection is open.
tried :
    (max : ℕ) (s s1 : Session) (r : Session × Option Fault)
    → s1.reconnect_count ≡ s.reconnect_count + 1
    → s1.conn ≡ open_conn
    → s1.closed ≡ s.closed
    → (0 < max → s.reconnect_count < max)
    → Leaves s1 r
    → Tried max s r
tried max s s1 r c o k below (failed ne same k') = faulted ne (same ∙ c) (k' ∙ k) below
tried max s s1 r c o k below (succeeded same le k') =
    done (same ∙ o) (omega (arith, c, le)) (k' ∙ k) below

module _ (decoders : Decoders ControlError) (auth_decoders : Decoders AuthInfo) where
  reconnect-Tried :
      (max : ℕ) (a : Attempt) (s : Session) → Tried max s (reconnect decoders auth_decoders max a s)
  unfolding reconnect dial
  reconnect-Tried max a s = elim (Bool-cases (ltb 0 max && leb max s.reconnect_count)) [
    | inl e ↦ rw e (refused (ground arith) (ground arith))
    | inr e ↦
        let below : 0 < max → s.reconnect_count < max = λ pos. ground arith in
        elim (Bool-cases a.dials) [
          | inl d ↦
              simp (e, d)
                (tried max s _ _ refl refl refl below
                  (authorize-Leaves decoders auth_decoders a _ _))
          | inr d ↦ simp (e, d) (faulted (λ f. cc) refl refl below)
        ]
  ]

-- The loop on the session `s` is over: with a connection that is open, with the client closed, or with
-- the panic of `Close` where the client was closed before.
pub data IsOver (s : Session) : Session × Ending → Type 0 where
  opened : {s' : Session} → s'.conn ≡ open_conn → IsOver s (s', reconnected)
  shut : {s' : Session} → s.closed ≡ false → s'.closed ≡ true → IsOver s (s', gave_up)
  broke : {s' : Session} → s.closed ≡ true → IsOver s (s', crashed)

-- An earlier session is closed if a later one is.
earlier : {s s1 : Session} {r : Session × Ending} → s1.closed ≡ s.closed → IsOver s1 r → IsOver s r
earlier same (opened o) = opened o
earlier same (shut k k') = shut (sym same ∙ k) k'
earlier same (broke k) = broke (sym same ∙ k)

module _ (decoders : Decoders ControlError) (auth_decoders : Decoders AuthInfo) where
  go_on-fault :
      (rest : Session × Ending) (s : Session) (f : Fault)
      → f ≢ hit_max_reconnect
      → go_on decoders auth_decoders rest s (some f) ≡ rest
  unfolding go_on
  go_on-fault rest s hit_max_reconnect ne = absurd (ne refl)
  go_on-fault rest s f ne = refl

  go_on-IsOver :
      (max : ℕ) (s : Session) (r : Session × Option Fault) (rest : Session × Ending)
      → 0 < max
      → Tried max s r
      → (s.reconnect_count < max → r.0.reconnect_count ≡ s.reconnect_count + 1 → IsOver r.0 rest)
      → IsOver s (go_on decoders auth_decoders rest r.0 r.1)
  unfolding go_on close shut_down
  go_on-IsOver max s r rest pos (refused p le) over = elim (Bool-cases s.closed) [
    | inl e ↦ simp e (broke e)
    | inr e ↦ simp e (shut e refl)
  ]
  go_on-IsOver max s r rest pos (faulted {s'} {f} ne c k below) over =
      rw (go_on-fault rest s' f ne) (earlier k (over (below pos) c))
  go_on-IsOver max s r rest pos (done o c k below) over = opened o

  -- With a limit on reconnections, whatever the attempts meet, the loop of `reconnecting` is over
  -- after at most as many attempts as the limit has left, and one: it has reconnected, with an open
  -- connection, or it has closed the client, or, only where the client was closed before, it has
  -- crashed in `Close`.
  pub reconnecting-IsOver :
      (max : ℕ) (attempts : List Attempt) (s : Session)
      → 0 < max
      → 1 ≤ length attempts
      → max < length attempts + s.reconnect_count
      → IsOver s (reconnecting decoders auth_decoders max attempts s)
  unfolding reconnecting
  reconnecting-IsOver max [] s pos one enough = absurd (omega (arith, one))
  reconnecting-IsOver max (a ∷ more) s pos one enough =
      let r = reconnect decoders auth_decoders max a s in
      go_on-IsOver max s r (reconnecting decoders auth_decoders max more r.0) pos
        (reconnect-Tried decoders auth_decoders max a s)
        (λ lt c.
          reconnecting-IsOver max more r.0 pos (omega (arith, lt, enough))
            (omega (arith, c, lt, enough)))
