-- ===== src/Decoder/ReadLoop.antt =====
-- The loop of `readPacket` (go/client/tcp_conn.go), which calls `Unpack` until it has no packet to give,
-- over a decoder's steps: what it unpacks. `readPacket` itself, with the packet channel, is
-- Client/Tcp/Reading.antt, which does what this loop does. `limit` bounds the rounds; `out_of_rounds` is no result of the code.
use openapi_protocol.Base.{ℕ, zero, suc, ◌+◌, List, [], ◌∷◌, ◌++◌, length}
use openapi_protocol.Base.Result.{Error}
use openapi_protocol.Packet.{Packet, Report, pending, complete, failure}
use openapi_protocol.Decoder.{Decoder}

pub data Ending : Type 0 where
  drained : Ending
  broken : Error → Ending
  out_of_rounds : Ending

module _ (d : Decoder) where
  open d use {State, step, weight, complete_takes}

  -- The packets that were unpacked, the state and the bytes left, and how the loop ended.
  pub record Reading : Type 0 where
    pub packets : List Packet
    pub state : State
    pub left : List ℕ
    pub ending : Ending

  unfoldable pub with_packet : Packet → Reading → Reading
  with_packet p r = record r { packets = p ∷ r.packets }

  -- What the loop does with one result of `Unpack`; `again` is the next round.
  unfoldable pub react : (State → List ℕ → Reading) → State × List ℕ × Report → Reading
  react again (s, rest, pending) = record { packets = []; state = s; left = rest; ending = drained }
  react again (s, rest, failure e) = record {
    packets = [];
    state = s;
    left = rest;
    ending = broken e;
  }
  react again (s, rest, complete p) = with_packet p (again s rest)

  unfoldable pub read_packet : ℕ → State → List ℕ → Reading
  read_packet zero s bytes = record {
    packets = [];
    state = s;
    left = bytes;
    ending = out_of_rounds;
  }
  read_packet (suc limit) s bytes = react (λ s' rest. read_packet limit s' rest) (step s bytes)

  abbrev pub measure : State → List ℕ → ℕ
  measure s bytes = length bytes + weight s

  -- The loop with as many rounds as it can need.
  unfoldable pub read_all : State → List ℕ → Reading
  unfolding read_packet
  read_all s bytes = read_packet (suc (measure s bytes)) s bytes

  -- Reading on behind what has been read: the next packets come behind, and what is left of the
  -- buffer stands before the new bytes. After an error nothing is decoded any more.
  unfoldable pub proceed : Ending → Reading → List ℕ → Reading
  proceed drained r more =
      let next = read_all r.state (r.left ++ more) in
      record next { packets = r.packets ++ next.packets }
  proceed (broken e) r more = record r { left = r.left ++ more }
  proceed out_of_rounds r more = r

  unfoldable pub read_on : Reading → List ℕ → Reading
  unfolding proceed
  read_on r more = proceed r.ending r more

  -- The chunks that the socket delivers, one after the other.
  unfoldable pub read_chunks : Reading → List (List ℕ) → Reading
  read_chunks r [] = r
  read_chunks r (chunk ∷ chunks) = read_chunks (read_on r chunk) chunks
