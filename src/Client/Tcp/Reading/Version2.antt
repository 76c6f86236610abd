-- ===== src/Client/Tcp/Reading/Version2.antt =====
-- go/client/tcp_conn.go over go/v2/v2.go: the reading side of a TCP connection in version 2.
use mathlib.Core.Path.{subst}
use openapi_protocol.Base.{
  ℕ, ◌-◌, ◌≡◌, refl, ap, ◌∙◌, List, [], ◌++◌, length, take, Option, none, some, flatten,
}
use openapi_protocol.Gzip.{Library}
use openapi_protocol.Gzip.Laws.{IsLawful}
use openapi_protocol.RingBuffer.{RingBuffer}
use openapi_protocol.RingBuffer.Pair.{Pair}
use openapi_protocol.Context.{Context, begin, end, set_header}
use openapi_protocol.Packet.{Packet, Report, pending, complete, failure}
use openapi_protocol.Decoder.ReadLoop.{read_all}
use openapi_protocol.V2.Header.{HeaderV2}
use openapi_protocol.V2.Header.RoundTrip.{empty_v2}
use openapi_protocol.V2.Packet.Sequence.{Sent, nothing, read_all-Sent}
use openapi_protocol.V2.Stream.{unpack}
use openapi_protocol.V2.Stream.Step.{step}
use openapi_protocol.V2.Stream.Decode.{decoder}
use openapi_protocol.V2.Stream.Refines.{leave, Leaves, unpack-step_v2}
use openapi_protocol.Client.Tcp.Reading.{Reads, drained, reading}
use openapi_protocol.Client.Tcp.Reading.Refines.{Unpacks, rounds, reading-read_all}

module _ {A : Type 0} where
  leave_lem :
      (c : Context HeaderV2 A) (h : Option HeaderV2) (r : Report)
      → ((leave c h r).header ≡ h) × ((leave c h r).codec ≡ c.codec)
  unfolding set_header end
  leave_lem c h (complete p) = (refl, refl)
  leave_lem c h (failure e) = (refl, refl)
  leave_lem c h pending = (refl, refl)

-- `pool` gives the header that a call takes from the pool, whatever it is.
module _ (lower : List ℕ → List ℕ) (lib : Library) {A : Type 0}
    (pool : Context HeaderV2 A → HeaderV2) (codec : ℕ) where
  unpack-Unpacks :
      (rb : RingBuffer)
      → Unpacks
          (decoder lower lib codec)
          rb
          (λ (c : Context HeaderV2 A). c.header)
          (λ (c : Context HeaderV2 A). c.codec ≡ codec)
          (λ c b. unpack lower lib rb (pool c) c b)
  unfolding begin
  unpack-Unpacks rb = record {
    refines = λ c b good.
        let t =
          subst
            (λ k.
              Leaves lower lib rb (begin c) (unpack lower lib rb (pool c) c b)
                (step lower lib k c.header (rb.contents b)))
            good (unpack-step_v2 lower lib rb (pool c) c b) in
        let s = step lower lib codec c.header (rb.contents b) in
        let l = leave_lem (begin c) s.0 s.2 in
        (leave (begin c) s.0 s.2, t.0, t.1, l.1 ∙ good, l.0, t.2);
  }

  -- `reading` of a connection whose protocol is version 2.
  unfoldable pub reading_v2 :
      (rbs : Pair)
      → ℕ
      → List (List ℕ)
      → Reads (Context HeaderV2 A) rbs.ring.Buf
      → Reads (Context HeaderV2 A) rbs.ring.Buf
  reading_v2 rbs size =
      reading rbs (λ c b. unpack lower lib rbs.ring (pool c) c b)
        (λ c b. unpack lower lib rbs.flat (pool c) c b) size
        (rounds (decoder lower lib codec) (λ (c : Context HeaderV2 A). c.header))

  -- When packets that version 2 carries are packed one after the other, `reading` leaves no byte of them over,
  -- however the connection cuts their bytes into chunks, and behind the packets `ch` that the channel
  -- had before it has exactly the first of them, in order, as many as a channel of `size` has room for
  -- while nobody takes one from it: all of them where there is room.
  pub reading_v2-Sent :
      (lawful : IsLawful lib) (rbs : Pair) (size : ℕ) (chunks : List (List ℕ)) (ps ch : List Packet)
      (c : Context HeaderV2 A) (b : rbs.ring.Buf)
      → c.header ≡ none
      → c.codec ≡ codec
      → rbs.ring.contents b ≡ []
      → Sent lower lib codec (flatten chunks) ps
      → (c' : Context HeaderV2 A) × (b' : rbs.ring.Buf) × (reading_v2 rbs size chunks
            (drained c b ch)
          ≡ drained c' b' (ch ++ take (size - length ch) ps))
        × (rbs.ring.contents b' ≡ [])
  unfolding reading_v2
  reading_v2-Sent lawful rbs size chunks ps ch c b fresh good none_yet sent =
      let d = decoder lower lib codec in
      reading-read_all d rbs (λ (c : Context HeaderV2 A). c.header)
        (λ (c : Context HeaderV2 A). c.codec ≡ codec) _ _ size (unpack-Unpacks rbs.ring)
        (unpack-Unpacks rbs.flat) c b ch good none_yet chunks (some empty_v2) (some empty_v2) [] ps
        (ap (λ h. read_all d h []) fresh ∙ read_all-Sent lower lib lawful codec [] [] nothing)
        (ap (λ h. read_all d h (flatten chunks)) fresh
          ∙ read_all-Sent lower lib lawful codec (flatten chunks) ps sent)
