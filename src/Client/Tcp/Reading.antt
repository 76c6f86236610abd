-- ===== src/Client/Tcp/Reading.antt =====
-- go/client/tcp_conn.go: the reading side of a TCP connection: `reading` and `readPacket`, over the
-- version's `Unpack` on the connection's ring buffers, as long as the connection is not closed by
-- another goroutine and `Read` returns no error. `C` is the type of the connection's context. The
-- callback of `OnPacket` takes no packet from the channel meanwhile; how it takes them is
-- Client/Inbox.antt. A channel that is nil, before `OnPacket` is called, is one of size 0.
pub mod Refines
pub mod Version1
pub mod Version2
use openapi_protocol.Base.{
  ℕ, zero, suc, ◌==◌, ltb, List, [], ◌∷◌, ◌++◌, length, Bool, true, false, if◌then◌else◌,
}
use openapi_protocol.Base.Result.{Error, ok, err, panic}
use openapi_protocol.Packet.{Packet, Outcome, pending, complete, failure}
use openapi_protocol.RingBuffer.{RingBuffer}
use openapi_protocol.RingBuffer.Pair.{Pair}
use openapi_protocol.Client.Inbox.Channel.{add_packet}

-- How `readPacket` ends: it returns nil or an error, it panics, or, which is no result of the code, the
-- rounds are used up. The list is the packet channel.
pub data Reads (C B : Type 0) : Type 0 where
  drained : C → B → List Packet → Reads C B
  broken : Error → List Packet → Reads C B
  crashed out_of_rounds : Reads C B

-- What the loop of `readPacket` does with one result of `Unpack`.
unfoldable pub react :
    {C B : Type 0} → ℕ → (C → B → List Packet → Reads C B) → List Packet → Outcome C B → Reads C B
react size again ch (ok (c, b, pending)) = drained c b ch
react size again ch (ok (c, b, complete p)) = again c b (add_packet size p ch)
react size again ch (ok (c, b, failure e)) = broken e ch
react size again ch (err e) = broken e ch
react size again ch panic = crashed

-- `readPacket` in at most `limit` rounds.
unfoldable pub read_packet :
    {C B : Type 0} → (C → B → Outcome C B) → ℕ → ℕ → C → B → List Packet → Reads C B
read_packet unpack size zero c b ch = out_of_rounds
read_packet unpack size (suc limit) c b ch =
    react size (λ c' b' ch'. read_packet unpack size limit c' b' ch') ch (unpack c b)

-- `limit` gives the rounds for a context and the bytes of a buffer.
module _ (rbs : Pair) {C : Type 0} (unpack : C → rbs.ring.Buf → Outcome C rbs.ring.Buf)
    (unpack_flat : C → rbs.flat.Buf → Outcome C rbs.flat.Buf) (size : ℕ)
    (limit : C → List ℕ → ℕ) where
  -- What is left of one read goes into the connection's buffer.
  unfoldable pub keep_rest : rbs.ring.Buf → Reads C rbs.flat.Buf → Reads C rbs.ring.Buf
  keep_rest b (drained c f ch) =
      if ltb 0 (rbs.flat.buf_length f)
      then drained c (rbs.write (rbs.first f) b) ch
      else drained c b ch
  keep_rest b (broken e ch) = broken e ch
  keep_rest b crashed = crashed
  keep_rest b out_of_rounds = out_of_rounds

  -- One round of `reading`, from the bytes of its `Read` on.
  unfoldable pub read_some : List ℕ → C → rbs.ring.Buf → List Packet → Reads C rbs.ring.Buf
  read_some bytes c b ch =
      if length bytes == 0
      then drained c b ch
      else if rbs.ring.buf_length b == 0
      then keep_rest b (read_packet unpack_flat size (limit c bytes) c (rbs.new_with_data bytes) ch)
      else (let b' = rbs.write bytes b in
          read_packet unpack size (limit c (rbs.ring.contents b')) c b' ch)

  -- After an error, `reading` closes the connection and returns.
  unfoldable pub go_on : List ℕ → Reads C rbs.ring.Buf → Reads C rbs.ring.Buf
  go_on bytes (drained c b ch) = read_some bytes c b ch
  go_on bytes (broken e ch) = broken e ch
  go_on bytes crashed = crashed
  go_on bytes out_of_rounds = out_of_rounds

  unfoldable pub reading : List (List ℕ) → Reads C rbs.ring.Buf → Reads C rbs.ring.Buf
  reading [] r = r
  reading (bytes ∷ chunks) r = reading chunks (go_on bytes r)
