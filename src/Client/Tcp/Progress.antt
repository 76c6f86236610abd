-- ===== src/Client/Tcp/Progress.antt =====
-- What the loop of `writing` can still do, and what callers of `write` and `Close` can do to each
-- other.
use openapi_protocol.Base.{
  ℕ, suc, ◌+◌, ◌*◌, ◌<◌, ◌≤◌, ◌≡◌, ◌≢◌, refl, List, [], ◌∷◌, ◌++◌, length, true, false,
}
use openapi_protocol.Client.Tcp.{
  Loop, top, selecting, returned, Conn, joined, wrote, write_begins, write_panics, close_begins,
  close_ends, Steps, still, step,
}
use openapi_protocol.Client.Tcp.Flow.{Inv}

-- A step of the loop in which the socket takes all that it is given; a tick comes only to a buffer that
-- holds bytes.
pub data Takes (c : Conn) : Conn → Type 0 where
  tests : c.loop ≡ top → c.close_ch ≡ false → Takes c (record c { loop = selecting })
  receives :
      (b f e : List ℕ) (rest : List (List ℕ))
      → c.loop ≡ selecting
      → c.write_ch ≡ b ∷ rest
      → c.buf ≡ f ++ e
      → Takes c
          (wrote (joined c.buf f e b) (length (joined c.buf f e b)) (record c { write_ch = rest }))
  ticks :
      (f e : List ℕ)
      → c.loop ≡ selecting
      → c.buf ≢ []
      → c.buf ≡ f ++ e
      → Takes c (wrote (f ++ e) (length (f ++ e)) c)

-- So many of these steps, one after the other.
pub data Run : ℕ → Conn → Conn → Type 0 where
  ends : {c : Conn} → Run 0 c c
  then : {n : ℕ} {c c' c'' : Conn} → Takes c c' → Run n c' c'' → Run (suc n) c c''

-- What is left to do, in steps.
in_buf : List ℕ → ℕ
in_buf [] = 0
in_buf (x ∷ xs) = 2

before_test : Loop → ℕ
before_test top = 1
before_test selecting = 0
before_test returned = 0

work : Conn → ℕ
work c = 2 * length c.write_ch + in_buf c.buf + before_test c.loop

-- The loop goes on in an open connection, and nothing new is accepted.
record GoesOn (c c' : Conn) : Type 0 where
  less : work c' < work c
  open_still : c'.close_ch ≡ c.close_ch
  running : c'.loop ≢ returned
  same : c'.accepted ≡ c.accepted

record Ran (n : ℕ) (c c' : Conn) : Type 0 where
  bounded : n + work c' ≤ work c
  invariant : Inv c'
  open_still : c'.close_ch ≡ false
  running : c'.loop ≢ returned
  same : c'.accepted ≡ c.accepted

-- From every state of an open connection, steps lead on to a panic: a call of `write` passes its
-- test of `closed`, a call of `Close` closes both channels, and the call of `write` sends. Nothing
-- else changes: what the loop holds, what was sent and what was accepted stay.
pub write_panics-close :
    (c : Conn) (b : List ℕ)
    → c.close_ch ≡ false
    → Steps c (record c { close_ch = true; write_ch_closed = true; panicked = true })
write_panics-close c b k =
    step (write_begins b k) (
      step close_begins (step (close_ends refl) (step (write_panics [] c.ready b refl refl) still)))
