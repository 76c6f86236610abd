-- ===== src/Client/Lock/Guard.antt =====
-- Only one goroutine reconnects at a time.
use openapi_protocol.Base.{
  ℕ, ◌≡◌, ◌≢◌, refl, sym, ◌∙◌, arith, ◌⊎◌, Bool, true, false, ◌==◌, ==_iff, Bool-cases, inl, inr,
}
use openapi_protocol.Client.Lock.{
  Code, finished, r_lock, r_unlock, reconnecting, locking, connecting, ending, waits, close_conn,
  close_client, Client, new_client, Begins, does, server_closes, closes, pings, misses, loses,
  check_fails, update, goes_on, on_conn_close, enter, Step, begins, r_locks, r_unlocks, wait_ends,
  client_closes, conn_closes, conn_was_closed, asks, enters, closes_old, dials, asks_again, ends,
  Steps, same, then_step,
}

-- The code of a goroutine that has set the guard and not yet cleared it.
unfoldable pub reconnects : Code → Bool
reconnects (connecting k) = true
reconnects (ending k) = true
reconnects k = false

-- What a goroutine runs after it.
IsPlain : Code → Type 0
IsPlain finished = Unit
IsPlain (connecting k) = ⊥
IsPlain (ending k) = ⊥
IsPlain (r_lock k) = IsPlain k
IsPlain (r_unlock k) = IsPlain k
IsPlain (reconnecting k) = IsPlain k
IsPlain (locking k) = IsPlain k
IsPlain (waits k) = IsPlain k
IsPlain (close_conn k) = IsPlain k
IsPlain (close_client k) = IsPlain k

IsWhole : Code → Type 0
IsWhole (connecting k) = IsPlain k
IsWhole (ending k) = IsPlain k
IsWhole k = IsPlain k

-- Who reconnects has set the guard, and is the only one.
record Inv (guard : Bool) (code : ℕ → Code) : Type 0 where
  whole : (i : ℕ) → IsWhole (code i)
  set : (i : ℕ) → reconnects (code i) ≡ true → guard ≡ true
  one : (i j : ℕ) → reconnects (code i) ≡ true → reconnects (code j) ≡ true → i ≡ j

plain-reconnects : (k : Code) → IsPlain k → (reconnects k ≡ false) × IsWhole k
unfolding reconnects IsPlain IsWhole
plain-reconnects finished p = (refl, p)
plain-reconnects (connecting k) p = absurd p
plain-reconnects (ending k) p = absurd p
plain-reconnects (r_lock k) p = (refl, p)
plain-reconnects (r_unlock k) p = (refl, p)
plain-reconnects (reconnecting k) p = (refl, p)
plain-reconnects (locking k) p = (refl, p)
plain-reconnects (waits k) p = (refl, p)
plain-reconnects (close_conn k) p = (refl, p)
plain-reconnects (close_client k) p = (refl, p)

begins-IsPlain : {k : Code} → Begins k → IsPlain k
unfolding IsPlain
begins-IsPlain does = tt
begins-IsPlain server_closes = tt
begins-IsPlain closes = tt
begins-IsPlain pings = tt
begins-IsPlain misses = tt
begins-IsPlain loses = tt
begins-IsPlain check_fails = tt

module _ (i : ℕ) (k : Code) (code : ℕ → Code) where
  IsWhole-update : ((j : ℕ) → IsWhole (code j)) → IsWhole k → (j : ℕ) → IsWhole (update i k code j)
  unfolding update
  IsWhole-update w p j = elim (Bool-cases (j == i)) [ inl e ↦ rw e p | inr e ↦ rw e (w j) ]

  -- Who reconnects after a goroutine has gone on, did so before, unless it is that goroutine.
  reconnects-update :
      (j : ℕ)
      → reconnects (update i k code j) ≡ true
      → ((j ≡ i) × (reconnects k ≡ true)) ⊎ ((j ≢ i) × (reconnects (code j) ≡ true))
  unfolding update
  reconnects-update j h = elim (Bool-cases (j == i)) [
    | inl e ↦ inl ((==_iff j i).0 e, simp e at h)
    | inr e ↦ inr (λ q. ground (arith, e, q), simp e at h)
  ]

  -- A goroutine goes on with code that does not reconnect.
  plain-Inv : {guard : Bool} → IsPlain k → Inv guard code → Inv guard (update i k code)
  plain-Inv p v =
      let (quiet, w) = plain-reconnects k p in
      record {
        whole = IsWhole-update v.whole w;
        set = λ j h. elim (reconnects-update j h) [ inl e ↦ cc (e.1, quiet) | inr e ↦ v.set j e.1 ];
        one = λ j l h h'. elim (reconnects-update j h) [
          | inl e ↦ cc (e.1, quiet)
          | inr e ↦ elim (reconnects-update l h') [
            | inl e' ↦ cc (e'.1, quiet)
            | inr e' ↦ v.one j l e.1 e'.1
          ]
        ];
      }

  -- A goroutine reconnects where no other one does.
  alone-Inv :
      IsWhole k
      → ((j : ℕ) → reconnects (code j) ≡ true → j ≡ i)
      → ((j : ℕ) → IsWhole (code j))
      → Inv true (update i k code)
  alone-Inv w only ws = record {
    whole = IsWhole-update ws w;
    set = λ j h. refl;
    one = λ j l h h'. elim (reconnects-update j h) [
      | inl e ↦ elim (reconnects-update l h') [
        | inl e' ↦ e.0 ∙ sym e'.0
        | inr e' ↦ absurd (e'.0 (only l e'.1))
      ]
      | inr e ↦ absurd (e.0 (only j e.1))
    ];
  }

  -- The only goroutine that reconnects is done.
  quiet-Inv :
      IsPlain k
      → ((j : ℕ) → reconnects (code j) ≡ true → j ≡ i)
      → ((j : ℕ) → IsWhole (code j))
      → Inv false (update i k code)
  quiet-Inv p only ws =
      let (quiet, w) = plain-reconnects k p in
      let none_left : (j : ℕ) → reconnects (update i k code j) ≢ true = λ j h.
        elim (reconnects-update j h) [ inl e ↦ cc (e.1, quiet) | inr e ↦ e.0 (only j e.1) ] in
      record {
        whole = IsWhole-update ws w;
        set = λ j h. absurd (none_left j h);
        one = λ j l h h'. absurd (none_left j h);
      }

Step-Inv :
    {c c' : Client} → Step c c' → Inv c.do_reconnecting c.code → Inv c'.do_reconnecting c'.code
unfolding goes_on enter IsWhole IsPlain on_conn_close reconnects
Step-Inv {c} (begins i k e b) v = plain-Inv i k c.code (begins-IsPlain b) v
Step-Inv {c} (r_locks i k e p) v = plain-Inv i k c.code (rw e at (v.whole i)) v
Step-Inv {c} (r_unlocks i k e) v = plain-Inv i k c.code (rw e at (v.whole i)) v
Step-Inv {c} (wait_ends i k e) v = plain-Inv i k c.code (rw e at (v.whole i)) v
Step-Inv {c} (client_closes i k e) v = plain-Inv i k c.code (rw e at (v.whole i)) v
Step-Inv {c} (conn_closes i k e o) v =
    let p : IsPlain k = rw e at (v.whole i) in
    elim (Bool-cases c.client_closed) [
      | inl q ↦ simp q (plain-Inv i k c.code p v)
      | inr q ↦ simp q (plain-Inv i (reconnecting k) c.code p v)
    ]
Step-Inv {c} (conn_was_closed i k e o) v = plain-Inv i k c.code (rw e at (v.whole i)) v
Step-Inv {c} (asks i k e) v = plain-Inv i (locking k) c.code (rw e at (v.whole i)) v
Step-Inv {c} (enters i k e r) v =
    let p : IsPlain k = rw e at (v.whole i) in
    elim (Bool-cases c.do_reconnecting) [
      | inl q ↦ let v' : Inv true c.code = rw q at v in simp q (plain-Inv i k c.code p v')
      | inr q ↦ simp q (alone-Inv i (connecting k) c.code p (λ j h. cc (v.set j h, q)) v.whole)
    ]
Step-Inv (closes_old i k e o) v = v
Step-Inv (dials i k e r) v = v
Step-Inv {c} (asks_again i k e) v =
    let p : IsPlain k = rw e at (v.whole i) in
    let mine : reconnects (c.code i) ≡ true = rw e refl in
    let set = v.set i mine in
    rw set (alone-Inv i (ending k) c.code p (λ j h. v.one j i h mine) v.whole)
Step-Inv {c} (ends i k e r) v =
    let p : IsPlain k = rw e at (v.whole i) in
    let mine : reconnects (c.code i) ≡ true = rw e refl in
    quiet-Inv i k c.code p (λ j h. v.one j i h mine) v.whole

Steps-Inv : {c : Client} → Steps new_client c → Inv c.do_reconnecting c.code
unfolding new_client IsWhole IsPlain reconnects
Steps-Inv same = record { whole = λ i. tt; set = λ i h. cc; one = λ i j h h'. cc }
Steps-Inv (then_step r s) = Step-Inv s (Steps-Inv r)

-- In every state that is reached, at most one goroutine is between setting the guard of `reconnecting`
-- and clearing it.
pub reconnects-alone :
    {c : Client} (i j : ℕ)
    → Steps new_client c
    → reconnects (c.code i) ≡ true
    → reconnects (c.code j) ≡ true
    → i ≡ j
reconnects-alone i j r h h' = (Steps-Inv r).one i j h h'
