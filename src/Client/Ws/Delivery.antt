-- ===== src/Client/Ws/Delivery.antt =====
-- From end to end over a WebSocket: packets of version 1 that one side packs, one to a message, reach
-- the other side.
use openapi_protocol.Base.{ℕ, ◌^◌, ◌<◌, ◌≡◌, List, [], ◌∷◌, length, false}
use openapi_protocol.Base.Result.{Result, ok}
use openapi_protocol.Gzip.{Library}
use openapi_protocol.Context.{Context}
use openapi_protocol.Packet.{Packet}
use openapi_protocol.Protocol.Options.{PackOption}
use openapi_protocol.V1.Header.{Header}
use openapi_protocol.V1.Packet.{pack}
use openapi_protocol.V1.Packet.Received.{IsSendable, delivered}
use openapi_protocol.Client.Ws.Messages.{Message, binary, other_message}

-- Messages each of which holds what packing one sendable packet gave, among control messages, and the
-- packets that come out of them.
pub data Framed (lib : Library) (codec : ℕ) : List Message → List Packet → Type 0 where
  nothing : Framed lib codec [] []
  control :
      (msgs : List Message) (ps : List Packet)
      → Framed lib codec msgs ps
      → Framed lib codec (other_message ∷ msgs) ps
  framed :
      (pooled : Header) (p p' : Packet) (opts : List PackOption) (bytes : List ℕ)
      (msgs : List Message) (ps : List Packet)
      → IsSendable p.metadata
      → p.metadata.gzip ≡ false
      → length p.body < 2 ^ 32
      → pack lib pooled p opts ≡ (p', ok bytes)
      → Framed lib codec msgs ps
      → Framed lib codec
          (binary bytes ∷ msgs)
          (record { metadata = delivered p'.metadata codec; body = p.body } ∷ ps)
