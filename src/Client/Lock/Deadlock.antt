-- ===== src/Client/Lock/Deadlock.antt =====
-- A close by the server makes the client lock itself out.
use mathlib.Core.Path.{fun_ext, subst}
use openapi_protocol.Base.{
  ℕ, ◌≡◌, ◌≢◌, refl, ◌∙◌, arith, List, [], ◌∷◌, ◌++◌, ◌⊎◌, true, false, ◌==◌, Bool-cases, inl, inr,
}
use openapi_protocol.Client.Lock.{
  Code, finished, r_lock, r_unlock, reconnecting, locking, ending, close_conn, Client,
  close_by_server, update, drop_one, goes_on, on_conn_close, Step, begins, r_locks, r_unlocks,
  wait_ends, client_closes, conn_closes, conn_was_closed, asks, enters, closes_old, dials,
  asks_again, ends, Steps, same, then_step,
}

-- The client once the goroutine `i` has got the read lock for `closeByServer`, has closed the
-- connection, and has called `Lock` in `reconnecting`.
unfoldable pub locked_out : ℕ → Client → Client
locked_out i c = record c {
  readers = i ∷ c.readers;
  pending = c.pending ++ (i ∷ []);
  conn_closed = true;
  code = update i (locking (r_unlock (reconnecting finished))) c.code;
}

-- `i` is among the goroutines.
Has : ℕ → List ℕ → Type 0
Has i [] = ⊥
Has i (j ∷ js) = (i ≡ j) ⊎ Has i js

Has-drop_one : (i j : ℕ) (js : List ℕ) → i ≢ j → Has i js → Has i (drop_one j js)
unfolding Has drop_one
Has-drop_one i j [] ne h = elim h [ ]
Has-drop_one i j (l ∷ js) ne (inl e) =
    let apart : (l == j) ≡ false = ground (arith, e, ne) in rw apart (inl e)
Has-drop_one i j (l ∷ js) ne (inr h) = elim (Bool-cases (l == j)) [
  | inl e ↦ rw e h
  | inr e ↦ rw e (inr (Has-drop_one i j js ne h))
]

Has-append : (i j : ℕ) (js : List ℕ) → Has i js → Has i (js ++ (j ∷ []))
unfolding Has
Has-append i j [] h = elim h [ ]
Has-append i j (l ∷ js) (inl e) = inl e
Has-append i j (l ∷ js) (inr h) = inr (Has-append i j js h)

Has-last : (i : ℕ) (js : List ℕ) → Has i (js ++ (i ∷ []))
unfolding Has
Has-last i [] = inl refl
Has-last i (l ∷ js) = inr (Has-last i js)

Has-nonempty : (i : ℕ) (js : List ℕ) → Has i js → js ≢ []
unfolding Has
Has-nonempty i [] h = elim h [ ]
Has-nonempty i (l ∷ js) h = λ e. cc

-- The goroutine `i` has a read lock, and its call of `Lock` waits; `j` is before an `RLock`.
record IsLockedOut (i j : ℕ) (k l : Code) (readers pending : List ℕ) (code : ℕ → Code)
    : Type 0 where
  stands : code i ≡ locking k
  outside : code j ≡ r_lock l
  reads : Has i readers
  asked : Has i pending

update-other : (i j : ℕ) (k : Code) (code : ℕ → Code) → j ≢ i → update i k code j ≡ code j
unfolding update
update-other i j k code ne = let apart : (j == i) ≡ false = ground (arith, ne) in rw apart refl

module _ {i j : ℕ} {k l : Code} {readers pending : List ℕ} {code : ℕ → Code} where
  -- Another goroutine goes on.
  moves :
      (m : ℕ) (b : Code)
      → i ≢ m
      → j ≢ m
      → IsLockedOut i j k l readers pending code
      → IsLockedOut i j k l readers pending (update m b code)
  moves m b ni nj v = record {
    stands = update-other m i b code ni ∙ v.stands;
    outside = update-other m j b code nj ∙ v.outside;
    reads = v.reads;
    asked = v.asked;
  }

  leaves :
      (m : ℕ)
      → i ≢ m
      → IsLockedOut i j k l readers pending code
      → IsLockedOut i j k l (drop_one m readers) pending code
  leaves m ni v = record {
    stands = v.stands;
    outside = v.outside;
    reads = Has-drop_one i m readers ni v.reads;
    asked = v.asked;
  }

  queues :
      (m : ℕ)
      → IsLockedOut i j k l readers pending code
      → IsLockedOut i j k l readers (pending ++ (m ∷ [])) code
  queues m v = record {
    stands = v.stands;
    outside = v.outside;
    reads = v.reads;
    asked = Has-append i m pending v.asked;
  }

IsShut : ℕ → ℕ → Code → Code → Client → Type 0
IsShut i j k l c = IsLockedOut i j k l c.readers c.pending c.code

-- No step brings `i` further, nor `j` past its `RLock`.
Step-IsShut :
    {c c' : Client} (i j : ℕ) (k l : Code) → Step c c' → IsShut i j k l c → IsShut i j k l c'
unfolding IsShut goes_on
Step-IsShut i j k l (begins m b e g) v =
    moves m b (λ q. cc (e, v.stands, q)) (λ q. cc (e, v.outside, q)) v
Step-IsShut {c} i j k l (r_locks m b e p) v = absurd (Has-nonempty i c.pending v.asked p)
Step-IsShut i j k l (r_unlocks m b e) v =
    leaves m (λ q. cc (e, v.stands, q))
      (moves m b (λ q. cc (e, v.stands, q)) (λ q. cc (e, v.outside, q)) v)
Step-IsShut i j k l (wait_ends m b e) v =
    moves m b (λ q. cc (e, v.stands, q)) (λ q. cc (e, v.outside, q)) v
Step-IsShut i j k l (client_closes m b e) v =
    moves m b (λ q. cc (e, v.stands, q)) (λ q. cc (e, v.outside, q)) v
Step-IsShut {c} i j k l (conn_closes m b e o) v =
    moves m (on_conn_close c.client_closed b) (λ q. cc (e, v.stands, q)) (λ q. cc (e, v.outside, q))
      v
Step-IsShut i j k l (conn_was_closed m b e o) v =
    moves m b (λ q. cc (e, v.stands, q)) (λ q. cc (e, v.outside, q)) v
Step-IsShut i j k l (asks m b e) v =
    queues m (moves m (locking b) (λ q. cc (e, v.stands, q)) (λ q. cc (e, v.outside, q)) v)
Step-IsShut {c} i j k l (enters m b e r) v = absurd (Has-nonempty i c.readers v.reads r)
Step-IsShut i j k l (closes_old m b e o) v = v
Step-IsShut {c} i j k l (dials m b e r) v = absurd (Has-nonempty i c.readers v.reads r)
Step-IsShut i j k l (asks_again m b e) v =
    queues m (moves m (ending b) (λ q. cc (e, v.stands, q)) (λ q. cc (e, v.outside, q)) v)
Step-IsShut {c} i j k l (ends m b e r) v = absurd (Has-nonempty i c.readers v.reads r)

Steps-IsShut :
    {c c' : Client} (i j : ℕ) (k l : Code) → Steps c c' → IsShut i j k l c → IsShut i j k l c'
Steps-IsShut i j k l same v = v
Steps-IsShut i j k l (then_step r s) v = Step-IsShut i j k l s (Steps-IsShut i j k l r v)

update-same : (i : ℕ) (k : Code) (code : ℕ → Code) → update i k code i ≡ k
unfolding update
update-same i k code = let same_one : (i == i) ≡ true = ground arith in rw same_one refl

update-update :
    (i : ℕ) (k k' : Code) (code : ℕ → Code) → update i k (update i k' code) ≡ update i k code
unfolding update
update-update i k k' code =
    fun_ext λ j. elim (Bool-cases (j == i)) [ inl e ↦ rw e refl | inr e ↦ rw e refl ]

-- The goroutine of `closeByServer` gets there in three steps.
locks_out :
    (i : ℕ) (c : Client)
    → c.code i ≡ close_by_server
    → c.pending ≡ []
    → c.conn_closed ≡ false
    → c.client_closed ≡ false
    → Steps c (locked_out i c)
unfolding locked_out on_conn_close
locks_out i c e p o q =
    let k2 : Code = r_unlock (reconnecting finished) in
    let k1 : Code = close_conn k2 in
    let shut : on_conn_close c.client_closed k2 ≡ reconnecting k2 = rw q refl in
    let once : update i (on_conn_close c.client_closed k2) (update i k1 c.code)
        ≡ update i (reconnecting k2) c.code =
      rw shut (update-update i (reconnecting k2) k1 c.code) in
    let twice : update i (locking k2) (update i (reconnecting k2) c.code)
        ≡ update i (locking k2) c.code =
      update-update i (locking k2) (reconnecting k2) c.code in
    let held = then_step same (r_locks i k1 e p) in
    let closed = then_step held (conn_closes i k2 (update-same i k1 c.code) o) in
    let called : Steps c (record c {
      readers = i ∷ c.readers;
      conn_closed = true;
      code = update i (reconnecting k2) c.code;
    }) =
      subst
        (λ code. Steps c (record c { readers = i ∷ c.readers; conn_closed = true; code = code }))
        once closed in
    subst
      (λ code. Steps c (record c {
        readers = i ∷ c.readers;
        pending = c.pending ++ (i ∷ []);
        conn_closed = true;
        code = code;
      }))
      twice (then_step called (asks i k2 (update-same i (reconnecting k2) c.code)))

-- A goroutine `i` that begins `closeByServer` on an open connection, with nobody waiting for the
-- lock and the client open, can come to a state from which, whatever steps follow, `i` stays at
-- its call of `Lock` in `reconnecting`, and each goroutine `j` at its `RLock`.
pub close_by_server-locks_out :
    (i j : ℕ) (l : Code) {c c' : Client}
    → c.code i ≡ close_by_server
    → c.code j ≡ r_lock l
    → j ≢ i
    → c.pending ≡ []
    → c.conn_closed ≡ false
    → c.client_closed ≡ false
    → Steps (locked_out i c) c'
    → Steps c (locked_out i c)
      × (c'.code i ≡ locking (r_unlock (reconnecting finished)))
      × (c'.code j ≡ r_lock l)
unfolding locked_out IsShut Has
close_by_server-locks_out i j l {c} e f ne p o q r =
    let k : Code = r_unlock (reconnecting finished) in
    let at_start : IsShut i j k l (locked_out i c) = record {
      stands = update-same i (locking k) c.code;
      outside = update-other i j (locking k) c.code ne ∙ f;
      reads = inl refl;
      asked = Has-last i c.pending;
    } in
    let at_end = Steps-IsShut i j k l r at_start in
    (locks_out i c e p o q, at_end.stands, at_end.outside)
