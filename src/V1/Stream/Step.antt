-- ===== src/V1/Stream/Step.antt =====
-- One call of `Unpack` as a function of the header under way and of the bytes that the buffer
-- holds, and how it goes on when bytes are added behind these.
use openapi_protocol.Base.{
  ℕ, List, length, take, drop, ltb, ◌==◌, if◌then◌else◌, Option, none, some,
}
use openapi_protocol.Base.Result.{Result, ok, err, panic, Progress, waiting, done, failed}
use openapi_protocol.Base.Bytes.{uint}
use openapi_protocol.Gzip.{Library}
use openapi_protocol.Metadata.{Metadata}
use openapi_protocol.Packet.{Report, pending, complete, failure}
use openapi_protocol.V1.Header.{Header, empty}
use openapi_protocol.V1.Header.Absorb.{absorb}
use openapi_protocol.V1.Header.Pool.{metadata}
use openapi_protocol.V1.Packet.{nonce_length, signature_length, decompress_body}
use openapi_protocol.V1.Stream.{need}

-- The metadata of a packet whose header is `h`, from the bytes behind the header.
unfoldable pub signed : Header → ℕ → List ℕ → Metadata
signed h codec bytes =
    if h.verify == 1
    then record (metadata h codec) {
      nonce = uint (take nonce_length (drop h.body_length bytes));
      signature = take signature_length (drop nonce_length (drop h.body_length bytes));
    }
    else metadata h codec

-- The packet, or why its body could not be had.
unfoldable pub report_of : Metadata → Result (List ℕ) → Report
report_of md (ok out) = complete (record { metadata = md; body = out })
report_of md (err e) = failure e
report_of md panic = pending

module _ (lib : Library) (codec : ℕ) where
  -- The report on all the bytes that the header asks for.
  unfoldable pub deliver : Header → List ℕ → Report
  deliver h bytes =
      report_of (signed h codec bytes) (decompress_body lib h (take h.body_length bytes))

  unfoldable pub body_step : Header → List ℕ → Option Header × List ℕ × Report
  body_step h bytes =
      if ltb (length bytes) (need h)
      then (some h, bytes, pending)
      else (none, drop (need h) bytes, deliver h bytes)

  unfoldable pub header_step : Header × List ℕ × Progress → Option Header × List ℕ × Report
  header_step (h, bytes, waiting) = (some h, bytes, pending)
  header_step (h, bytes, failed e) = (none, bytes, failure e)
  header_step (h, bytes, done) = body_step h bytes

  unfoldable pub step_from : Header → List ℕ → Option Header × List ℕ × Report
  step_from h bytes = if h.is_unpacked then body_step h bytes else header_step (absorb h bytes)

  unfoldable pub step : Option Header → List ℕ → Option Header × List ℕ × Report
  unfolding step_from
  step none bytes = step_from empty bytes
  step (some h) bytes = step_from h bytes
