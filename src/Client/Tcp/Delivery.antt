-- ===== src/Client/Tcp/Delivery.antt =====
-- From end to end over TCP: what callers of `Write` of one side gave, the other side reads, behind the
-- handshake (go/client/tcp_conn.go, go/v1/v1.go).
use mathlib.Core.Path.{subst}
use openapi_protocol.Base.{
  ℕ, ◌-◌, arith, ◌≡◌, ◌≢◌, refl, sym, ap, ◌∙◌, List, [], ◌++◌, append-nil, take, drop, none,
  flatten,
}
use openapi_protocol.Base.Result.{ok}
use openapi_protocol.Gzip.{Library}
use openapi_protocol.Gzip.Laws.{IsLawful}
use openapi_protocol.Packet.{Packet}
use openapi_protocol.Protocol.Handshake.{Handshake, IsValid, pack, unpack, unpack-pack}
use openapi_protocol.RingBuffer.Pair.{Pair}
use openapi_protocol.Context.{Context}
use openapi_protocol.V1.Header.{Header}
use openapi_protocol.V1.Packet.Delivery.{Sent}
use openapi_protocol.Client.Tcp.Reading.{drained}
use openapi_protocol.Client.Tcp.Reading.Version1.{reading_v1, reading_v1-Sent}
use openapi_protocol.Client.Tcp.{Conn, returned}
use openapi_protocol.Client.Tcp.Dial.{Dialled, Dialled-Reach}
use openapi_protocol.Client.Tcp.Flow.{accepted-in_order}

-- Nothing waits in the queue or the buffer.
pub record IsIdle (c : Conn) : Type 0 where
  pub runs : c.loop ≢ returned
  pub buf : c.buf ≡ []
  pub write_ch : c.write_ch ≡ []

module _ {h : Handshake} {size : ℕ} {c : Conn} (d : Dialled h size c) (idle : IsIdle c) where
  sent-accepted : c.sent ≡ c.accepted
  sent-accepted =
      sym (append-nil c.sent)
      ∙ ap (λ (xs : List ℕ). c.sent ++ xs) (rw (idle.buf, idle.write_ch) refl)
      ∙ accepted-in_order (Dialled-Reach d) idle.runs

  behind_handshake :
      (bytes : List ℕ)
      → c.accepted ≡ pack h ++ bytes
      → (take 2 c.sent ≡ pack h) × (drop 2 c.sent ≡ bytes)
  behind_handshake bytes e = rw (sent-accepted, e) (unfold pack in (refl, refl))

  -- If callers of `write` gave what packing sendable packets of version 1 gave, and nothing waits in
  -- the queue or the buffer of a connection that `dialTCPConn` returned and whose loop of `writing` has
  -- not returned, the peer reads the handshake, when its fields fit four bits each, from the first two
  -- bytes that were sent, and from the others, however they come in chunks, `reading` of a fresh
  -- connection of its own leaves no byte over and has in its channel, empty at first, exactly the first
  -- of the packets, in order, as many as there is `room` for while nobody takes one from it: all of them
  -- where there is room.
  pub reading_v1-sent :
      {A : Type 0} (lib : Library) (lawful : IsLawful lib) (pool : Context Header A → Header)
      (bytes : List ℕ) (ps : List Packet) (rbs : Pair) (room : ℕ) (chunks : List (List ℕ))
      (peer : Context Header A) (b : rbs.ring.Buf)
      → IsValid h
      → c.accepted ≡ pack h ++ bytes
      → Sent lib peer.codec bytes ps
      → flatten chunks ≡ drop 2 c.sent
      → peer.header ≡ none
      → rbs.ring.contents b ≡ []
      → (unpack (take 2 c.sent) ≡ ok h)
        × ((peer' : Context Header A) × (b' : rbs.ring.Buf) × (reading_v1 lib pool peer.codec rbs
                room chunks
                (drained peer b [])
              ≡ drained peer' b' (take room ps))
            × (rbs.ring.contents b' ≡ []))
  reading_v1-sent lib lawful pool bytes ps rbs room chunks peer b valid e s cut fresh none_yet =
      let p = behind_handshake bytes e in
      let all_room : room - 0 ≡ room = omega arith in
      let whole : Sent lib peer.codec (flatten chunks) ps =
        subst (λ xs. Sent lib peer.codec xs ps) (sym (cut ∙ p.1)) s in
      (
        rw p.0 (unpack-pack h valid),
        rw all_room at (
            reading_v1-Sent lib pool peer.codec lawful rbs room chunks ps [] peer b fresh refl
              none_yet whole),
      )
