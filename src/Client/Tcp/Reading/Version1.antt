-- ===== src/Client/Tcp/Reading/Version1.antt =====
-- go/client/tcp_conn.go over go/v1/v1.go: the reading side of a TCP connection in version 1.
use mathlib.Core.Path.{subst}
use openapi_protocol.Base.{
  ℕ, ◌-◌, ◌≡◌, refl, ap, ◌∙◌, List, [], ◌++◌, length, take, Option, none, some, flatten,
}
use openapi_protocol.Gzip.{Library}
use openapi_protocol.Gzip.Laws.{IsLawful}
use openapi_protocol.RingBuffer.{RingBuffer}
use openapi_protocol.RingBuffer.Pair.{Pair}
use openapi_protocol.Context.{Context, begin, end, set_header}
use openapi_protocol.Packet.{Packet, Report, pending, complete, failure}
use openapi_protocol.Decoder.ReadLoop.{read_all}
use openapi_protocol.V1.Header.{Header, empty}
use openapi_protocol.V1.Packet.Delivery.{Sent, nothing, read_all-Sent}
use openapi_protocol.V1.Stream.{unpack}
use openapi_protocol.V1.Stream.Step.{step}
use openapi_protocol.V1.Stream.Decode.{decoder}
use openapi_protocol.V1.Stream.Refines.{leave, Leaves, unpack-step}
use openapi_protocol.Client.Tcp.Reading.{Reads, drained, reading}
use openapi_protocol.Client.Tcp.Reading.Refines.{Unpacks, rounds, reading-read_all}

module _ {A : Type 0} where
  leave_lem :
      (c : Context Header A) (h : Option Header) (r : Report)
      → ((leave c h r).header ≡ h) × ((leave c h r).codec ≡ c.codec)
  unfolding set_header end
  leave_lem c h (complete p) = (refl, refl)
  leave_lem c h (failure e) = (refl, refl)
  leave_lem c h pending = (refl, refl)

-- `pool` gives the header that a call takes from the pool, whatever it is.
module _ (lib : Library) {A : Type 0} (pool : Context Header A → Header) (codec : ℕ) where
  unpack-Unpacks :
      (rb : RingBuffer)
      → Unpacks
          (decoder lib codec)
          rb
          (λ (c : Context Header A). c.header)
          (λ (c : Context Header A). c.codec ≡ codec)
          (λ c b. unpack lib rb (pool c) c b)
  unfolding begin
  unpack-Unpacks rb = record {
    refines = λ c b good.
        let t =
          subst
            (λ k.
              Leaves lib rb (begin c) (unpack lib rb (pool c) c b)
                (step lib k c.header (rb.contents b)))
            good (unpack-step lib rb (pool c) c b) in
        let s = step lib codec c.header (rb.contents b) in
        let l = leave_lem (begin c) s.0 s.2 in
        (leave (begin c) s.0 s.2, t.0, t.1, l.1 ∙ good, l.0, t.2);
  }

  -- `reading` of a connection whose protocol is version 1.
  unfoldable pub reading_v1 :
      (rbs : Pair)
      → ℕ
      → List (List ℕ)
      → Reads (Context Header A) rbs.ring.Buf
      → Reads (Context Header A) rbs.ring.Buf
  reading_v1 rbs size =
      reading rbs (λ c b. unpack lib rbs.ring (pool c) c b)
        (λ c b. unpack lib rbs.flat (pool c) c b) size
        (rounds (decoder lib codec) (λ (c : Context Header A). c.header))

  -- When sendable packets are packed one after the other, `reading` leaves no byte of them over,
  -- however the connection cuts their bytes into chunks, and behind the packets `ch` that the channel
  -- had before it has exactly the first of them, in order, as many as a channel of `size` has room for
  -- while nobody takes one from it: all of them where there is room.
  pub reading_v1-Sent :
      (lawful : IsLawful lib) (rbs : Pair) (size : ℕ) (chunks : List (List ℕ)) (ps ch : List Packet)
      (c : Context Header A) (b : rbs.ring.Buf)
      → c.header ≡ none
      → c.codec ≡ codec
      → rbs.ring.contents b ≡ []
      → Sent lib codec (flatten chunks) ps
      → (c' : Context Header A) × (b' : rbs.ring.Buf) × (reading_v1 rbs size chunks (drained c b ch)
          ≡ drained c' b' (ch ++ take (size - length ch) ps))
        × (rbs.ring.contents b' ≡ [])
  unfolding reading_v1
  reading_v1-Sent lawful rbs size chunks ps ch c b fresh good none_yet sent =
      let d = decoder lib codec in
      reading-read_all d rbs (λ (c : Context Header A). c.header)
        (λ (c : Context Header A). c.codec ≡ codec) _ _ size (unpack-Unpacks rbs.ring)
        (unpack-Unpacks rbs.flat) c b ch good none_yet chunks (some empty) (some empty) [] ps
        (ap (λ h. read_all d h []) fresh ∙ read_all-Sent lib lawful codec [] [] nothing)
        (ap (λ h. read_all d h (flatten chunks)) fresh
          ∙ read_all-Sent lib lawful codec (flatten chunks) ps sent)
