-- ===== src/V2/Stream/Decode.antt =====
-- Version 2 fills the interface of a decoder.
use openapi_protocol.Base.{ℕ, List}
use openapi_protocol.Gzip.{Library}
use openapi_protocol.Decoder.{Decoder}
use openapi_protocol.Decoder.Framing.Stepped.{decoder_of}
use openapi_protocol.V2.Stream.Step.{step}
use openapi_protocol.V2.Stream.Append.{body, step-framed}

module _ (lower : List ℕ → List ℕ) (lib : Library) (codec : ℕ) where
  -- Version 2 over one connection.
  abbrev pub decoder : Decoder
  decoder = decoder_of (body lower lib codec) (step lower lib codec) (step-framed lower lib codec)
