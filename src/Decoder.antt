-- ===== src/Decoder.antt =====
-- What a protocol's `Unpack` promises to its caller: steps over a stream of bytes whose result
-- does not depend on when the bytes arrive. Both versions fill this interface; the read loop
-- of go/client/tcp_conn.go uses it.
pub mod Framing
pub mod ReadLoop
pub mod Chunks
use openapi_protocol.Base.{ℕ, ◌+◌, ◌<◌, ◌≡◌, List, ◌++◌, length}
use openapi_protocol.Base.Result.{Error}
use openapi_protocol.Packet.{Packet, Report, pending, complete, failure}

-- A step that waits is repeated on what it left once more bytes are there; any other step leaves
-- the later bytes alone.
abbrev pub resume :
    {S : Type 0}
    → (S → List ℕ → S × List ℕ × Report)
    → S × List ℕ × Report
    → List ℕ
    → S × List ℕ × Report
resume step (s, rest, pending) more = step s (rest ++ more)
resume step (s, rest, complete p) more = (s, rest ++ more, complete p)
resume step (s, rest, failure e) more = (s, rest ++ more, failure e)

-- `State` is what stands in the context between two calls. A step that completes a packet takes
-- bytes or clears the state, as `weight` measures.
pub record Decoder : Type 1 where
  pub State : Type 0
  pub step : State → List ℕ → State × List ℕ × Report
  pub weight : State → ℕ
  pub step-append :
      (s : State) (bytes more : List ℕ) → step s (bytes ++ more) ≡ resume step (step s bytes) more
  pub complete_takes :
      (s : State) (bytes : List ℕ) (p : Packet)
      → (step s bytes).2 ≡ complete p
      → length (step s bytes).1 + weight (step s bytes).0 < length bytes + weight s
