-- ===== src/Client/Ws.antt =====
-- go/client/ws_conn.go: the sending side of a WebSocket connection. Any number of callers of `write`
-- and of `Close` run beside the one loop of `writing`; a step is what one of them does between two
-- points at which another may come in. The queue of packets to the client is that of `Inbox`.
pub mod Flow
pub mod Messages
pub mod Delivery
pub mod Heartbeat
use openapi_protocol.Base.{ℕ, ◌≤◌, ◌<◌, ◌≡◌, List, [], ◌∷◌, ◌++◌, length, Bool, true, false}

-- Where the loop of `writing` stands: at its receive, with the message `b` before its test of
-- `closed`, or at its end.
pub data Loop : Type 0 where
  receiving returned : Loop
  holding : List ℕ → Loop

-- As in `Tcp`, `ready` is the data of the calls of `write` that have passed the test of `closed` and
-- not yet sent. `accepted` is the data that calls of `write` returned no error for, and `frames` the
-- binary messages that the socket took.
pub record Conn : Type 0 where
  pub close_ch : Bool
  pub write_ch_closed : Bool
  pub write_ch : List (List ℕ)
  pub write_queue_size : ℕ
  pub ready : List (List ℕ)
  pub loop : Loop
  pub frames : List (List ℕ)
  pub accepted : List (List ℕ)
  pub panicked : Bool

unfoldable pub dial_ws_conn : ℕ → Conn
dial_ws_conn size = record {
  close_ch = false;
  write_ch_closed = false;
  write_ch = [];
  write_queue_size = size;
  ready = [];
  loop = receiving;
  frames = [];
  accepted = [];
  panicked = false;
}

-- The message that the loop holds.
unfoldable pub held : Loop → List (List ℕ)
held (holding b) = b ∷ []
held l = []

unfoldable pub queue_up : List (List ℕ) → List ℕ → Conn → Conn
queue_up others b c = record c {
  ready = others;
  write_ch = c.write_ch ++ (b ∷ []);
  accepted = c.accepted ++ (b ∷ []);
}

-- The steps of the loop of `writing`.
pub data Writing (c : Conn) : Conn → Type 0 where
  receive :
      (b : List ℕ) (rest : List (List ℕ))
      → c.loop ≡ receiving
      → c.write_ch ≡ b ∷ rest
      → Writing c (record c { write_ch = rest; loop = holding b })
  drained :
      c.loop ≡ receiving
      → c.write_ch ≡ []
      → c.write_ch_closed ≡ true
      → Writing c (record c { loop = returned })
  gives_up :
      (b : List ℕ)
      → c.loop ≡ holding b
      → c.close_ch ≡ true
      → Writing c (record c { loop = returned })
  writes :
      (b : List ℕ)
      → c.loop ≡ holding b
      → c.close_ch ≡ false
      → Writing c (record c { frames = c.frames ++ (b ∷ []); loop = receiving })
  write_fails :
      (b : List ℕ)
      → c.loop ≡ holding b
      → c.close_ch ≡ false
      → Writing c (record c { loop = returned; close_ch = true })

-- A step of any goroutine. A call of `write` whose send finds the channel closed panics.
pub data Step (c : Conn) : Conn → Type 0 where
  writing : {c' : Conn} → Writing c c' → Step c c'
  write_begins : (b : List ℕ) → c.close_ch ≡ false → Step c (record c { ready = b ∷ c.ready })
  write_sends :
      (before after : List (List ℕ)) (b : List ℕ)
      → c.ready ≡ before ++ (b ∷ after)
      → c.write_ch_closed ≡ false
      → length c.write_ch < c.write_queue_size
      → Step c (queue_up (before ++ after) b c)
  write_full :
      (before after : List (List ℕ)) (b : List ℕ)
      → c.ready ≡ before ++ (b ∷ after)
      → c.write_ch_closed ≡ false
      → c.write_queue_size ≤ length c.write_ch
      → Step c (record c { ready = before ++ after })
  write_panics :
      (before after : List (List ℕ)) (b : List ℕ)
      → c.ready ≡ before ++ (b ∷ after)
      → c.write_ch_closed ≡ true
      → Step c (record c { ready = before ++ after; panicked = true })
  close_begins : Step c (record c { close_ch = true })
  close_ends : c.close_ch ≡ true → Step c (record c { write_ch_closed = true })

pub data Reach (size : ℕ) : Conn → Type 0 where
  dialled : Reach size (dial_ws_conn size)
  later : {c c' : Conn} → Reach size c → Step c c' → Reach size c'
