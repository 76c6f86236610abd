-- ===== src/V1/Packet/Delivery.antt =====
-- Packets that version 1 packs (go/v1/v1.go): one behind the other as a stream, what `Unpack` takes from
-- a ring buffer that holds them, and what its repeated steps decode.
use mathlib.Core.Path.{subst}
use openapi_protocol.Base.{
  ℕ, ◌^◌, ◌<◌, ◌≡◌, refl, ap, ◌∙◌, List, [], ◌∷◌, ◌++◌, length, false, none, some,
}
use openapi_protocol.Base.Result.{ok}
use openapi_protocol.Gzip.{Library}
use openapi_protocol.Gzip.Laws.{IsLawful}
use openapi_protocol.RingBuffer.{RingBuffer}
use openapi_protocol.Context.{Context, begin}
use openapi_protocol.Packet.{Packet, pending, complete}
use openapi_protocol.Protocol.Options.{PackOption}
use openapi_protocol.Decoder.ReadLoop.{drained, Reading, with_packet, react, read_all}
use openapi_protocol.Decoder.Chunks.{read_all_round}
use openapi_protocol.V1.Header.{Header, empty}
use openapi_protocol.V1.Header.Absorb.{absorb}
use openapi_protocol.V1.Packet.{pack}
use openapi_protocol.V1.Packet.Received.{IsSendable, delivered}
use openapi_protocol.V1.Packet.RoundTrip.{step-pack}
use openapi_protocol.V1.Stream.{unpack}
use openapi_protocol.V1.Stream.Step.{step, step_from, header_step}
use openapi_protocol.V1.Stream.Decode.{decoder}
use openapi_protocol.V1.Stream.Refines.{Leaves, unpack-step}

module _ (lib : Library) (lawful : IsLawful lib) where
  -- One call of `Unpack` with no header under way, on a ring buffer that holds what `Pack` wrote for
  -- a sendable packet, whose body is shorter than 2^32 bytes and not compressed yet, and then any
  -- bytes, takes exactly the bytes of the packet and returns it: its body as before a compression, its
  -- metadata as far as version 1 carries it.
  pub unpack-pack_packet :
      {A : Type 0} (rb : RingBuffer) (c : Context Header A) (b : rb.Buf) (pooled pooled' : Header)
      (p p' : Packet) (opts : List PackOption) (bytes rest : List ℕ)
      → IsSendable p.metadata
      → p.metadata.gzip ≡ false
      → length p.body < 2 ^ 32
      → pack lib pooled p opts ≡ (p', ok bytes)
      → c.header ≡ none
      → rb.contents b ≡ bytes ++ rest
      → Leaves lib rb (begin c) (unpack lib rb pooled' c b) (
        none,
        rest,
        complete (record { metadata = delivered p'.metadata c.codec; body = p.body }),
      )
  unpack-pack_packet rb c b pooled pooled' p p' opts bytes rest s plain lt e fresh held =
      subst (λ r. Leaves lib rb (begin c) (unpack lib rb pooled' c b) r)
        (ap (λ h. step lib c.codec h (rb.contents b)) fresh
          ∙ ap (step lib c.codec none) held
          ∙ step-pack lib lawful c.codec pooled p p' opts bytes rest s plain lt e)
        (unpack-step lib rb pooled' c b)

module _ (lib : Library) (codec : ℕ) where
  -- A stream of bytes that packing sendable packets one after the other gives, and the packets that
  -- come out of it.
  pub data Sent : List ℕ → List Packet → Type 0 where
    nothing : Sent [] []
    packet :
        (pooled : Header) (p p' : Packet) (opts : List PackOption) (bytes rest : List ℕ)
        (ps : List Packet)
        → IsSendable p.metadata
        → p.metadata.gzip ≡ false
        → length p.body < 2 ^ 32
        → pack lib pooled p opts ≡ (p', ok bytes)
        → Sent rest ps
        → Sent
            (bytes ++ rest)
            (record { metadata = delivered p'.metadata codec; body = p.body } ∷ ps)

  abbrev pub all_read : List Packet → Reading (decoder lib codec)
  all_read ps = record { packets = ps; state = some empty; left = []; ending = drained }

  step-nil : step lib codec none [] ≡ (some empty, [], pending)
  unfolding step step_from header_step absorb
  step-nil = refl

module _ (lib : Library) (lawful : IsLawful lib) (codec : ℕ) where
  -- The loop over the steps decodes the packets from their stream, with nothing left over.
  pub read_all-Sent :
      (bytes : List ℕ) (ps : List Packet)
      → Sent lib codec bytes ps
      → read_all (decoder lib codec) none bytes ≡ all_read lib codec ps
  unfolding react with_packet
  read_all-Sent bytes ps nothing =
      read_all_round (decoder lib codec) none [] ∙ rw (step-nil lib codec) refl
  read_all-Sent bytes ps (packet pooled p p' opts bs rest qs s plain lt e more) =
      read_all_round (decoder lib codec) none (bs ++ rest)
      ∙ rw (step-pack lib lawful codec pooled p p' opts bs rest s plain lt e)
          (ap (with_packet (decoder lib codec) _) (read_all-Sent rest qs more))
