-- ===== src/Client/Tcp.antt =====
-- go/client/tcp_conn.go: the sending side of a TCP connection. Any number of callers of `write` and
-- of `Close` run beside the one loop of `writing`; a step is what one of them does between two
-- points at which another may come in.
pub mod Flow
pub mod Dial
pub mod Reading
pub mod Delivery
pub mod Progress
use openapi_protocol.Base.{
  ℕ, ◌+◌, ◌≤◌, ◌<◌, ◌≡◌, ◌≢◌, List, [], ◌∷◌, ◌++◌, length, take, drop, Bool, true, false, ◌==◌,
  if◌then◌else◌,
}

-- Where the loop of `writing` stands: before its test of `closed`, at its `select`, or at its end.
pub data Loop : Type 0 where
  top selecting returned : Loop

-- `close_ch` and `write_ch_closed` say that the channels are closed; `ready` is the data of the
-- calls of `write` that have passed the test of `closed` and not yet sent. `buf` is the local buffer
-- of `writing`. Of the history, `accepted` is all data that calls of `write` returned no error for,
-- and `sent` all bytes that the socket took.
pub record Conn : Type 0 where
  pub close_ch : Bool
  pub write_ch_closed : Bool
  pub write_ch : List (List ℕ)
  pub write_queue_size : ℕ
  pub ready : List (List ℕ)
  pub loop : Loop
  pub buf : List ℕ
  pub sent : List ℕ
  pub accepted : List ℕ
  pub panicked : Bool

-- `dialTCPConn`: the connection at the start of its goroutines.
unfoldable pub dial_tcp_conn : ℕ → Conn
dial_tcp_conn size = record {
  close_ch = false;
  write_ch_closed = false;
  write_ch = [];
  write_queue_size = size;
  ready = [];
  loop = top;
  buf = [];
  sent = [];
  accepted = [];
  panicked = false;
}

-- What is written next: the pieces `f` and `e` of the buffer, if it is not empty, and then `b`.
unfoldable pub joined : List ℕ → List ℕ → List ℕ → List ℕ → List ℕ
joined buf f e b = if length buf == 0 then b else f ++ (e ++ b)

-- The socket takes `n` bytes of `b`; the others go into the buffer, which is empty.
unfoldable pub wrote : List ℕ → ℕ → Conn → Conn
wrote b n c = record c { sent = c.sent ++ take n b; buf = drop n b; loop = top }

-- The socket takes `n` bytes of `b` and fails: the loop closes the connection and ends.
unfoldable pub write_failed : List ℕ → ℕ → Conn → Conn
write_failed b n c = record c {
  sent = c.sent ++ take n b;
  buf = [];
  loop = returned;
  close_ch = true;
}

-- A call of `write` sends: `data` goes into the channel.
unfoldable pub enqueue : List (List ℕ) → List ℕ → Conn → Conn
enqueue others b c = record c {
  ready = others;
  write_ch = c.write_ch ++ (b ∷ []);
  accepted = c.accepted ++ b;
}

-- The steps of the loop of `writing`. `PeekAll` returns the buffer in any two pieces.
pub data Writing (c : Conn) : Conn → Type 0 where
  test_closed : c.loop ≡ top → c.close_ch ≡ true → Writing c (record c { loop = returned })
  test_open : c.loop ≡ top → c.close_ch ≡ false → Writing c (record c { loop = selecting })
  receive :
      (b f e : List ℕ) (rest : List (List ℕ)) (n : ℕ)
      → c.loop ≡ selecting
      → c.write_ch ≡ b ∷ rest
      → c.buf ≡ f ++ e
      → n ≤ length (joined c.buf f e b)
      → Writing c (wrote (joined c.buf f e b) n (record c { write_ch = rest }))
  receive_failed :
      (b f e : List ℕ) (rest : List (List ℕ)) (n : ℕ)
      → c.loop ≡ selecting
      → c.write_ch ≡ b ∷ rest
      → c.buf ≡ f ++ e
      → Writing c (write_failed (joined c.buf f e b) n (record c { write_ch = rest }))
  drained :
      c.loop ≡ selecting
      → c.write_ch ≡ []
      → c.write_ch_closed ≡ true
      → Writing c (record c { loop = returned })
  tick_idle : c.loop ≡ selecting → c.buf ≡ [] → Writing c (record c { loop = top })
  tick :
      (f e : List ℕ) (n : ℕ)
      → c.loop ≡ selecting
      → c.buf ≢ []
      → c.buf ≡ f ++ e
      → n ≤ length (f ++ e)
      → Writing c (wrote (f ++ e) n c)
  tick_failed :
      (f e : List ℕ) (n : ℕ)
      → c.loop ≡ selecting
      → c.buf ≢ []
      → c.buf ≡ f ++ e
      → Writing c (write_failed (f ++ e) n c)

-- A step of any goroutine. A call of `write` whose send finds the channel closed panics.
pub data Step (c : Conn) : Conn → Type 0 where
  writing : {c' : Conn} → Writing c c' → Step c c'
  write_begins : (b : List ℕ) → c.close_ch ≡ false → Step c (record c { ready = b ∷ c.ready })
  write_sends :
      (before after : List (List ℕ)) (b : List ℕ)
      → c.ready ≡ before ++ (b ∷ after)
      → c.write_ch_closed ≡ false
      → length c.write_ch < c.write_queue_size
      → Step c (enqueue (before ++ after) b c)
  write_full :
      (before after : List (List ℕ)) (b : List ℕ)
      → c.ready ≡ before ++ (b ∷ after)
      → c.write_ch_closed ≡ false
      → c.write_queue_size ≤ length c.write_ch
      → Step c (record c { ready = before ++ after })
  write_panics :
      (before after : List (List ℕ)) (b : List ℕ)
      → c.ready ≡ before ++ (b ∷ after)
      → c.write_ch_closed ≡ true
      → Step c (record c { ready = before ++ after; panicked = true })
  close_begins : Step c (record c { close_ch = true })
  close_ends : c.close_ch ≡ true → Step c (record c { write_ch_closed = true })

pub data Reach (size : ℕ) : Conn → Type 0 where
  dialled : Reach size (dial_tcp_conn size)
  later : {c c' : Conn} → Reach size c → Step c c' → Reach size c'

-- Steps of any goroutines, one after the other.
pub data Steps : Conn → Conn → Type 0 where
  still : {c : Conn} → Steps c c
  step : {c c' c'' : Conn} → Step c c' → Steps c' c'' → Steps c c''
