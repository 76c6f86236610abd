-- ===== src/V2/Packet.antt =====
-- go/v2/v2.go: `UnpackBytes` and `Pack` of version 2, which sends the key-value pairs of the
-- metadata between header and body. `pooled` is the header that the pool hands out if one is asked
-- for, `lib` the compression library, `lower` is `strings.ToLower`.

pub mod Layout
pub mod RoundTrip
pub mod Delivery
pub mod Sequence
pub mod Frames
pub mod Overwritten
use openapi_protocol.Base.{
  ℕ, ◌+◌, ◌-◌, ◌%◌, ◌^◌, List, [], length, replicate, drop, true, ltb, leb, not, ◌&&◌, ◌==◌,
  if◌then◌else◌, none,
}
use openapi_protocol.Base.Result.{
  Result, ok, err, panic, ◌>>=◌, invalid_frame, body_len_hit_limit, slice, overwrite, write_at,
}
use openapi_protocol.Base.Bytes.{uint, put_uint64}
use openapi_protocol.Gzip.{Library, compress}
use openapi_protocol.Protocol.Options.{compresses, PackOption, new_pack_options}
use openapi_protocol.Metadata.{Metadata}
use openapi_protocol.Metadata.Values.{marshal_values, unmarshal_values}
use openapi_protocol.Packet.{Packet}
use openapi_protocol.Context.{Context, begin, end, set_header}
use openapi_protocol.V1.Header.{max_body_length, request_packet, response_packet, push_packet}
use openapi_protocol.V1.Header.Pool.{metadata}
use openapi_protocol.V1.Packet.{nonce_length, signature_length, decompress_body}
use openapi_protocol.V2.Header
use openapi_protocol.V2.Header.{
  HeaderV2, header_from_context, header_from_metadata, request_header_len, response_header_len,
  push_header_len,
}

abbrev pub max_metadata_length : ℕ
max_metadata_length = 2 ^ 16 - 1

-- The length of the header in front of the metadata; 0 for an unknown type, which is refused
-- before.
unfoldable pub frame_header_len : HeaderV2 → ℕ
frame_header_len h =
    if h.base.type == request_packet
    then request_header_len
    else if h.base.type == response_packet
    then response_header_len
    else if h.base.type == push_packet
    then push_header_len
    else 0

-- The buffer that `Pack` allocates and fills: header, metadata, body, nonce and signature.
unfoldable pub fill : Packet → List ℕ → List ℕ → ℕ → Result (List ℕ)
fill p md hd hl =
    let bl = length p.body in
    let l =
      if p.metadata.verify
      then hl + bl + length md + nonce_length + signature_length
      else hl + bl + length md in
    let bytes =
      overwrite (overwrite (overwrite (replicate l 0) 0 hd) (length hd) md) (length hd + length md)
        p.body in
    if p.metadata.verify
    then (do
      bytes ← write_at bytes (hl + bl) (put_uint64 p.metadata.nonce)
      ok (overwrite bytes (hl + bl + nonce_length) p.metadata.signature))
    else ok bytes

abbrev pub with_lengths : HeaderV2 → ℕ → ℕ → HeaderV2
with_lengths h ml bl = record { metadata_length = ml; base = record h.base { body_length = bl } }

-- `Pack` from the limit on, where the body is what goes out.
unfoldable pub pack_frame : HeaderV2 → Packet → Result (List ℕ)
pack_frame pooled p =
    let bl = length p.body in
    let md = marshal_values p.metadata max_metadata_length in
    if ltb max_body_length bl then err body_len_hit_limit else (do
      let h =
          with_lengths (header_from_metadata pooled p.metadata) (length md % 2 ^ 16) (bl % 2 ^ 32)
      hd ← Header.pack h
      fill p md hd (frame_header_len h))

-- What becomes of the packet, which is changed in place: its body is the compressed one and it is
-- marked so. Where the compression fails the body is lost.
unfoldable pub pack_compressed : HeaderV2 → Packet → Result (List ℕ) → Packet × Result (List ℕ)
pack_compressed pooled p (ok out) =
    let p' = record p { body = out; metadata = record p.metadata { gzip = true } } in
    (p', pack_frame pooled p')
pack_compressed pooled p (err e) = (record p { body = [] }, err e)
pack_compressed pooled p panic = (p, panic)

module _ (lib : Library) where
  unfoldable pub pack : HeaderV2 → Packet → List PackOption → Packet × Result (List ℕ)
  pack pooled p opts =
      let o = new_pack_options opts in
      if compresses o.min_gzip_size (length p.body)
      then pack_compressed pooled p (compress lib p.body)
      else (p, pack_frame pooled p)

-- The nonce and the signature of a frame, which stand behind metadata and body.
unfoldable pub frame_signature : HeaderV2 → List ℕ → Metadata → Result Metadata
frame_signature h bytes md =
    let idx = h.base.body_length + h.metadata_length in
    if h.base.verify == 1
    then (if ltb (length bytes) (idx + nonce_length + signature_length)
        then err invalid_frame
        else (do
          nonce ← slice bytes idx (idx + nonce_length)
          ok (record md { nonce = uint nonce; signature = drop (idx + nonce_length) bytes })))
    else ok md

module _ (lower : List ℕ → List ℕ) (lib : Library) where
  -- The end of the body is a sum of two uint32 values.
  unfoldable pub unpack_frame : HeaderV2 → ℕ → List ℕ → Result Packet
  unpack_frame h codec bytes =
      if ltb (length bytes) (h.base.body_length + h.metadata_length) then err invalid_frame else (do
        md ← slice bytes 0 h.metadata_length
        body ← slice bytes h.metadata_length ((h.base.body_length + h.metadata_length) % 2 ^ 32)
        md ← unmarshal_values lower (metadata h.base codec) md
        md ← frame_signature h bytes md
        body ← decompress_body lib h.base body
        ok (record { metadata = md; body = body }))

  -- The deferred call takes the header out of the context on every return.
  unfoldable pub unpack_bytes :
      {A : Type 0} → HeaderV2 → Context HeaderV2 A → List ℕ → Context HeaderV2 A × Result Packet
  unpack_bytes pooled ctx frame =
      let ctx = begin ctx in
      let r =
        (Header.unpack_bytes (header_from_context pooled ctx) frame >>= λ p.
        unpack_frame p.0 ctx.codec p.1) in
      (set_header none (elim r [ ok p ↦ end ctx | err e ↦ ctx | panic ↦ ctx ]), r)
