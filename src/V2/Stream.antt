-- ===== src/V2/Stream.antt =====
-- go/v2/v2.go: `Unpack` of version 2, which takes one packet from a ring buffer, in as many calls
-- as the arrival of its bytes needs; between two calls the header stands in the context.
pub mod Step
pub mod Refines
pub mod Append
pub mod Decode
use openapi_protocol.Base.{
  ℕ, ◌+◌, List, Bool, true, false, ltb, ◌==◌, if◌then◌else◌, Option, none, some,
}
use openapi_protocol.Base.Result.{
  Result, ok, err, panic, ◌>>=◌, read_failed, Progress, waiting, done, failed,
}
use openapi_protocol.RingBuffer.{RingBuffer}
use openapi_protocol.Gzip.{Library}
use openapi_protocol.Metadata.{Metadata}
use openapi_protocol.Metadata.Values.{unmarshal_values}
use openapi_protocol.Packet.{Packet, Report, Outcome, pending, complete, failure}
use openapi_protocol.Context.{Context, begin, end, set_header}
use openapi_protocol.V1.Header.Pool.{metadata}
use openapi_protocol.V1.Packet.{nonce_length, signature_length, decompress_body}
use openapi_protocol.V1.Stream.{take_signature}
use openapi_protocol.V2.Header.{HeaderV2, header_from_context}
use openapi_protocol.V2.Header.Buffered

-- The bytes behind the header: metadata and body, and in a verified packet the nonce and the
-- signature.
unfoldable pub need : HeaderV2 → ℕ
need h =
    let len = h.base.body_length + h.metadata_length in
    if h.base.verify == 1 then len + nonce_length + signature_length else len

module _ (lower : List ℕ → List ℕ) (lib : Library) (rb : RingBuffer) {A : Type 0} where
  open rb use {Buf, buf_length, read}

  -- The end of `Unpack`, the deferred call included: the header goes out of the context as soon as
  -- a packet is complete or an error has come up.
  unfoldable pub finish :
      Context HeaderV2 A
      → HeaderV2
      → List ℕ
      → Option Metadata × Buf
      → Outcome (Context HeaderV2 A) Buf
  finish ctx h body (none, b) = ok (set_header none ctx, b, failure read_failed)
  finish ctx h body (some md, b) = elim (decompress_body lib h.base body) [
    | ok out ↦ ok (set_header none (end ctx), b, complete (record { metadata = md; body = out }))
    | err e ↦ ok (set_header none ctx, b, failure e)
    | panic ↦ panic
  ]

  -- From `UnmarshalMetadata` on.
  unfoldable pub unpack_metadata :
      Context HeaderV2 A
      → HeaderV2
      → List ℕ
      → Buf
      → Result Metadata
      → Outcome (Context HeaderV2 A) Buf
  unpack_metadata ctx h body b (ok md) = finish ctx h body (take_signature rb h.base md b)
  unpack_metadata ctx h body b (err e) = ok (set_header none ctx, b, failure e)
  unpack_metadata ctx h body b panic = panic

  unfoldable pub unpack_body :
      Context HeaderV2 A → HeaderV2 → Buf → Outcome (Context HeaderV2 A) Buf
  unpack_body ctx h b =
      if ltb (buf_length b) (need h)
      then ok (set_header (some h) ctx, b, pending)
      else elim (read h.metadata_length b) [
        | none ↦ ok (set_header none ctx, b, failure read_failed)
        | some (md, b') ↦ elim (read h.base.body_length b') [
          | none ↦ ok (set_header none ctx, b', failure read_failed)
          | some (body, b'') ↦
              unpack_metadata ctx h body b'' (unmarshal_values lower (metadata h.base ctx.codec) md)
        ]
      ]

  unfoldable pub after_header :
      Context HeaderV2 A → HeaderV2 → Buf → Progress → Outcome (Context HeaderV2 A) Buf
  after_header ctx h b waiting = ok (set_header (some h) ctx, b, pending)
  after_header ctx h b (failed e) = ok (set_header none ctx, b, failure e)
  after_header ctx h b done = unpack_body ctx h b

  -- `Unpack` with the header of the context.
  unfoldable pub unpack_from :
      Context HeaderV2 A → HeaderV2 → Buf → Outcome (Context HeaderV2 A) Buf
  unpack_from ctx h b =
      if h.base.is_unpacked
      then unpack_body ctx h b
      else (do (h', b', p) ← Buffered.unpack rb h b; after_header ctx h' b' p)

  unfoldable pub unpack : HeaderV2 → Context HeaderV2 A → Buf → Outcome (Context HeaderV2 A) Buf
  unpack pooled c b = let ctx = begin c in unpack_from ctx (header_from_context pooled ctx) b
