-- ===== src/V2/Packet/Sequence.antt =====
-- Streams of packets that version 2 packs (go/v2/v2.go), and what repeated steps of `Unpack` decode from
-- them.
use openapi_protocol.Base.{
  ℕ, ◌^◌, ◌<◌, ◌≡◌, refl, ap, ◌∙◌, List, [], ◌∷◌, ◌++◌, length, false, none, some,
}
use openapi_protocol.Base.Result.{ok}
use openapi_protocol.Gzip.{Library}
use openapi_protocol.Gzip.Laws.{IsLawful}
use openapi_protocol.Packet.{Packet, pending}
use openapi_protocol.Protocol.Options.{PackOption}
use openapi_protocol.Decoder.ReadLoop.{drained, Reading, with_packet, react, read_all}
use openapi_protocol.Decoder.Chunks.{read_all_round}
use openapi_protocol.V2.Header.{HeaderV2}
use openapi_protocol.V2.Header.RoundTrip.{empty_v2}
use openapi_protocol.V2.Header.Absorb.{absorb}
use openapi_protocol.V2.Packet.{pack}
use openapi_protocol.V2.Packet.Delivery.{IsSendableV2, step-pack}
use openapi_protocol.V2.Packet.RoundTrip.{delivered_v2}
use openapi_protocol.V2.Stream.Step.{step, step_from, header_step}
use openapi_protocol.V2.Stream.Decode.{decoder}

module _ (lower : List ℕ → List ℕ) (lib : Library) (codec : ℕ) where
  -- A stream of bytes that packing packets that version 2 carries one after the other gives, and the
  -- packets that come out of it.
  pub data Sent : List ℕ → List Packet → Type 0 where
    nothing : Sent [] []
    packet :
        (pooled : HeaderV2) (p p' : Packet) (opts : List PackOption) (bytes rest : List ℕ)
        (ps : List Packet)
        → IsSendableV2 lower p
        → p.metadata.gzip ≡ false
        → length p.body < 2 ^ 32
        → pack lib pooled p opts ≡ (p', ok bytes)
        → Sent rest ps
        → Sent
            (bytes ++ rest)
            (record { metadata = delivered_v2 p'.metadata codec; body = p.body } ∷ ps)

  abbrev pub all_read : List Packet → Reading (decoder lower lib codec)
  all_read ps = record { packets = ps; state = some empty_v2; left = []; ending = drained }

  step-nil : step lower lib codec none [] ≡ (some empty_v2, [], pending)
  unfolding step step_from header_step absorb
  step-nil = refl

module _ (lower : List ℕ → List ℕ) (lib : Library) (lawful : IsLawful lib) (codec : ℕ) where
  -- The loop over the steps decodes the packets from their stream, with nothing left over.
  pub read_all-Sent :
      (bytes : List ℕ) (ps : List Packet)
      → Sent lower lib codec bytes ps
      → read_all (decoder lower lib codec) none bytes ≡ all_read lower lib codec ps
  unfolding react with_packet
  read_all-Sent bytes ps nothing =
      read_all_round (decoder lower lib codec) none [] ∙ rw (step-nil lower lib codec) refl
  read_all-Sent bytes ps (packet pooled p p' opts bs rest qs s plain lt e more) =
      read_all_round (decoder lower lib codec) none (bs ++ rest)
      ∙ rw (step-pack lower lib lawful codec pooled p p' opts bs rest s plain lt e)
          (ap (with_packet (decoder lower lib codec) _) (read_all-Sent rest qs more))
