-- ===== src/V1/Stream.antt =====
-- go/v1/v1.go: `Unpack` of version 1, which takes one packet from a ring buffer, in as many calls
-- as the arrival of its bytes needs; between two calls the header stands in the context.
pub mod Step
pub mod Signature
pub mod Refines
pub mod Append
pub mod Decode
use openapi_protocol.Base.{
  ℕ, ◌+◌, List, Bool, true, false, ltb, ◌==◌, if◌then◌else◌, Option, none, some,
}
use openapi_protocol.Base.Result.{
  Result, ok, err, panic, ◌>>=◌, read_failed, Progress, waiting, done, failed,
}
use openapi_protocol.RingBuffer.{RingBuffer}
use openapi_protocol.Gzip.{Library}
use openapi_protocol.Metadata.{Metadata}
use openapi_protocol.Packet.{Packet, Report, Outcome, pending, complete, failure}
use openapi_protocol.Context.{Context, begin, end, set_header}
use openapi_protocol.V1.Header.{Header}
use openapi_protocol.V1.Header.Buffered
use openapi_protocol.V1.Header.Pool.{metadata}
use openapi_protocol.V1.Packet.{
  nonce_length, signature_length, header_from_context, decompress_body,
}

-- The bytes behind the header: the body, and in a verified packet the nonce and the signature.
unfoldable pub need : Header → ℕ
need h = if h.verify == 1 then h.body_length + nonce_length + signature_length else h.body_length

module _ (rb : RingBuffer) where
  open rb use {Buf, peek_uint64, retrieve, read}

  unfoldable pub take_signature : Header → Metadata → Buf → Option Metadata × Buf
  take_signature h md b =
      let b' = retrieve nonce_length b in
      if h.verify == 1
      then elim (read signature_length b') [
        | none ↦ (none, b')
        | some (s, b'') ↦ (some (record md { nonce = peek_uint64 b; signature = s }), b'')
      ]
      else (some md, b)

module _ (lib : Library) (rb : RingBuffer) {A : Type 0} where
  open rb use {Buf, buf_length, read}

  -- What the deferred call and `EndUnpack` leave of the context: the header goes out of it as soon
  -- as a packet is complete or an error has come up.
  unfoldable pub finish :
      Context Header A → Header → List ℕ → Option Metadata → Buf → Outcome (Context Header A) Buf
  finish ctx h body none b = ok (set_header none ctx, b, failure read_failed)
  finish ctx h body (some md) b = elim (decompress_body lib h body) [
    | ok out ↦ ok (set_header none (end ctx), b, complete (record { metadata = md; body = out }))
    | err e ↦ ok (set_header none ctx, b, failure e)
    | panic ↦ panic
  ]

  unfoldable pub unpack_body : Context Header A → Header → Buf → Outcome (Context Header A) Buf
  unpack_body ctx h b =
      if ltb (buf_length b) (need h)
      then ok (set_header (some h) ctx, b, pending)
      else elim (read h.body_length b) [
        | none ↦ ok (set_header none ctx, b, failure read_failed)
        | some (body, b') ↦
            let signed = take_signature rb h (metadata h ctx.codec) b' in
            finish ctx h body signed.0 signed.1
      ]

  unfoldable pub after_header :
      Context Header A → Header → Buf → Progress → Outcome (Context Header A) Buf
  after_header ctx h b waiting = ok (set_header (some h) ctx, b, pending)
  after_header ctx h b (failed e) = ok (set_header none ctx, b, failure e)
  after_header ctx h b done = unpack_body ctx h b

  -- `Unpack` with the header of the context.
  unfoldable pub unpack_from : Context Header A → Header → Buf → Outcome (Context Header A) Buf
  unpack_from ctx h b =
      if h.is_unpacked
      then unpack_body ctx h b
      else (do (h', b', p) ← Buffered.unpack rb h b; after_header ctx h' b' p)

  unfoldable pub unpack : Header → Context Header A → Buf → Outcome (Context Header A) Buf
  unpack pooled c b = let ctx = begin c in unpack_from ctx (header_from_context pooled ctx) b
