-- ===== src/V1/Packet.antt =====
-- go/v1/v1.go: `UnpackBytes`, `Unpack` and `Pack` of version 1. `pooled` is the header that the
-- pool hands out if one is asked for, `lib` the compression library.
pub mod Layout
pub mod Received
pub mod RoundTrip
pub mod Delivery
pub mod Frames
use openapi_protocol.Base.{
  ℕ, ◌+◌, ◌%◌, ◌^◌, ◌≤◌, List, [], ◌∷◌, length, replicate, take, drop, Bool, true, false, ltb, leb,
  not, ◌&&◌, ◌==◌, if◌then◌else◌, Option, none, some,
}
use openapi_protocol.Base.Result.{
  Result, ok, err, panic, Error, ◌>>=◌, invalid_frame, body_len_hit_limit, read_failed, slice,
  overwrite, write_at, Progress, waiting, done, failed,
}
use openapi_protocol.Base.Bytes.{uint, put_uint64}
use openapi_protocol.RingBuffer.{RingBuffer}
use openapi_protocol.Gzip.{Library, compress, decompress}
use openapi_protocol.Protocol.Options.{compresses, PackOptions, PackOption, new_pack_options}
use openapi_protocol.Metadata.{Metadata}
use openapi_protocol.Packet.{Packet, Report, pending, complete, failure}
use openapi_protocol.Context.{Context, begin, end, set_header}
use openapi_protocol.V1.Header.{
  Header, max_body_length, request_packet, response_packet, push_packet, request_header_len,
  response_header_len, push_header_len,
}
use openapi_protocol.V1.Header
use openapi_protocol.V1.Header.Buffered
use openapi_protocol.V1.Header.Pool.{get, header_from_metadata, metadata}

abbrev pub nonce_length : ℕ
nonce_length = 8

abbrev pub signature_length : ℕ
signature_length = 16

-- `headerFromContext`: the header under way, or one from the pool.
unfoldable pub header_from_context : {A : Type 0} → Header → Context Header A → Header
header_from_context pooled ctx = elim ctx.header [ none ↦ get pooled | some h ↦ h ]

-- The length of the header in front of the body; 0 for an unknown type, which is refused before.
unfoldable pub frame_header_len : Header → ℕ
frame_header_len h =
    if h.type == request_packet
    then request_header_len
    else if h.type == response_packet
    then response_header_len
    else if h.type == push_packet
    then push_header_len
    else 0

-- The buffer that `Pack` allocates and fills: header, body, nonce and signature.
unfoldable pub fill : Packet → List ℕ → ℕ → Result (List ℕ)
fill p hd hl =
    let bl = length p.body in
    let l = if p.metadata.verify then hl + bl + nonce_length + signature_length else hl + bl in
    let bytes = overwrite (overwrite (replicate l 0) 0 hd) (length hd) p.body in
    if p.metadata.verify
    then (do
      bytes ← write_at bytes (hl + bl) (put_uint64 p.metadata.nonce)
      ok (overwrite bytes (hl + bl + nonce_length) p.metadata.signature))
    else ok bytes

-- `Pack` from the limit on, where the body is what goes out.
unfoldable pub pack_frame : Header → Packet → Result (List ℕ)
pack_frame pooled p =
    let bl = length p.body in
    if ltb max_body_length bl then err body_len_hit_limit else (do
      let h = record (header_from_metadata pooled p.metadata) { body_length = bl % 2 ^ 32 }
      hd ← Header.pack h
      fill p hd (frame_header_len h))

-- What becomes of the packet, which is changed in place: its body is the compressed one and it is
-- marked so. Where the compression fails the body is lost.
unfoldable pub pack_compressed : Header → Packet → Result (List ℕ) → Packet × Result (List ℕ)
pack_compressed pooled p (ok out) =
    let p' = record p { body = out; metadata = record p.metadata { gzip = true } } in
    (p', pack_frame pooled p')
pack_compressed pooled p (err e) = (record p { body = [] }, err e)
pack_compressed pooled p panic = (p, panic)

module _ (lib : Library) where
  unfoldable pub decompress_body : Header → List ℕ → Result (List ℕ)
  decompress_body h body =
      if h.gzip == 1 then (do (out, n) ← decompress lib body; ok out) else ok body

  -- The nonce and the signature of a frame, which stand behind the body.
  unfoldable pub frame_signature : Header → List ℕ → Metadata → Result Metadata
  frame_signature h bytes md =
      if h.verify == 1
      then (if ltb (length bytes) (h.body_length + nonce_length + signature_length)
          then err invalid_frame
          else (do
            nonce ← slice bytes h.body_length (h.body_length + nonce_length)
            ok (record md {
              nonce = uint nonce;
              signature = drop (h.body_length + nonce_length) bytes;
            })))
      else ok md

  unfoldable pub unpack_frame : Header → ℕ → List ℕ → Result Packet
  unfolding frame_signature decompress_body
  unpack_frame h codec bytes = if ltb (length bytes) h.body_length then err invalid_frame else (do
    body ← slice bytes 0 h.body_length
    md ← frame_signature h bytes (metadata h codec)
    body ← decompress_body h body
    ok (record { metadata = md; body = body }))

  -- The deferred call takes the header out of the context on every return.
  unfoldable pub unpack_bytes :
      {A : Type 0} → Header → Context Header A → List ℕ → Context Header A × Result Packet
  unfolding unpack_frame header_from_context
  unpack_bytes pooled ctx frame =
      let ctx = begin ctx in
      let r =
        (Header.unpack_bytes (header_from_context pooled ctx) frame >>= λ p.
        unpack_frame p.0 ctx.codec p.1) in
      (set_header none (elim r [ ok p ↦ end ctx | err e ↦ ctx | panic ↦ ctx ]), r)

  unfoldable pub pack : Header → Packet → List PackOption → Packet × Result (List ℕ)
  pack pooled p opts =
      let o = new_pack_options opts in
      if compresses o.min_gzip_size (length p.body)
      then pack_compressed pooled p (compress lib p.body)
      else (p, pack_frame pooled p)
