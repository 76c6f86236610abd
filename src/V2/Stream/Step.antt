-- ===== src/V2/Stream/Step.antt =====
-- One call of `Unpack` of version 2 as a function of the header under way and of the bytes that
-- the buffer holds.
use openapi_protocol.Base.{ℕ, ◌+◌, List, length, take, drop, ltb, if◌then◌else◌, Option, none, some}
use openapi_protocol.Base.Result.{Result, ok, err, panic, Progress, waiting, done, failed}
use openapi_protocol.Gzip.{Library}
use openapi_protocol.Metadata.{Metadata}
use openapi_protocol.Metadata.Values.{unmarshal_values}
use openapi_protocol.Packet.{Report, pending, failure}
use openapi_protocol.V1.Header.Pool.{metadata}
use openapi_protocol.V1.Packet.{decompress_body}
use openapi_protocol.V1.Stream.Signature.{sign}
use openapi_protocol.V1.Stream.Step.{report_of}
use openapi_protocol.V2.Header.{HeaderV2}
use openapi_protocol.V2.Header.RoundTrip.{empty_v2}
use openapi_protocol.V2.Header.Absorb.{absorb}
use openapi_protocol.V2.Stream.{need}

module _ (lower : List ℕ → List ℕ) (lib : Library) (codec : ℕ) where
  -- What follows once the metadata is decoded. Where it cannot be decoded the nonce and the
  -- signature are left unread.
  unfoldable pub decoded : HeaderV2 → List ℕ → Result Metadata → Option HeaderV2 × List ℕ × Report
  decoded h bytes (ok md) = (
    none,
    drop (need h) bytes,
    report_of (sign h.base md (drop (h.metadata_length + h.base.body_length) bytes))
        (decompress_body lib h.base (take h.base.body_length (drop h.metadata_length bytes))),
  )
  decoded h bytes (err e) = (none, drop (h.metadata_length + h.base.body_length) bytes, failure e)
  decoded h bytes panic = (none, bytes, pending)

  unfoldable pub body_step : HeaderV2 → List ℕ → Option HeaderV2 × List ℕ × Report
  body_step h bytes =
      if ltb (length bytes) (need h)
      then (some h, bytes, pending)
      else decoded h bytes
          (unmarshal_values lower (metadata h.base codec) (take h.metadata_length bytes))

  unfoldable pub header_step : HeaderV2 × List ℕ × Progress → Option HeaderV2 × List ℕ × Report
  header_step (h, bytes, waiting) = (some h, bytes, pending)
  header_step (h, bytes, failed e) = (none, bytes, failure e)
  header_step (h, bytes, done) = body_step h bytes

  unfoldable pub step_from : HeaderV2 → List ℕ → Option HeaderV2 × List ℕ × Report
  step_from h bytes = if h.base.is_unpacked then body_step h bytes else header_step (absorb h bytes)

  unfoldable pub step : Option HeaderV2 → List ℕ → Option HeaderV2 × List ℕ × Report
  unfolding step_from
  step none bytes = step_from empty_v2 bytes
  step (some h) bytes = step_from h bytes
