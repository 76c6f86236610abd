-- ===== src/V1/Stream/Decode.antt =====
-- Version 1 fills the interface of a decoder.
use openapi_protocol.Base.{ℕ}
use openapi_protocol.Gzip.{Library}
use openapi_protocol.Decoder.{Decoder}
use openapi_protocol.Decoder.Framing.Stepped.{decoder_of}
use openapi_protocol.V1.Stream.Step.{step}
use openapi_protocol.V1.Stream.Append.{body, step-framed}

module _ (lib : Library) (codec : ℕ) where
  -- Version 1 over one connection.
  abbrev pub decoder : Decoder
  decoder = decoder_of (body lib codec) (step lib codec) (step-framed lib codec)
