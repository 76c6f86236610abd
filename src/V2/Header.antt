-- ===== src/V2/Header.antt =====
-- go/v2/v2_header.go: the header of a version 2 packet, which embeds that of version 1 and has the
-- length of the metadata between the fields of its type and the length of the body.
pub mod Layout
pub mod Fields
pub mod RoundTrip
pub mod Buffered
pub mod Absorb
pub mod Append
pub mod StreamTrip
use openapi_protocol.Base.{
  ℕ, zero, suc, ◌+◌, ◌-◌, ◌*◌, ◌/◌, ◌%◌, ◌^◌, ◌<◌, bit_and, List, [], ◌∷◌, length, replicate, drop,
  Bool, true, false, ◌||◌, ltb, leb, ◌==◌, if◌then◌else◌, Option, none, some,
}
use openapi_protocol.Base.Result.{
  Result, ok, err, panic, unknown_packet, body_len_hit_limit, invalid_frame, ◌>>=◌, index, slice,
  write_at,
}
use openapi_protocol.Base.Bytes.{uint, put_uint16, join24, split24}
use openapi_protocol.Context.{Context}
use openapi_protocol.Metadata.{Metadata}
use openapi_protocol.V1.Header
use openapi_protocol.V1.Header.{
  max_body_length, is_unknown_packet, request_packet, response_packet, first_byte, set_first_byte,
  pack_ids, unpack_request_id, unpack_timeout, unpack_status,
}
use openapi_protocol.V1.Header.Pool

abbrev pub request_header_len : ℕ
request_header_len = Header.request_header_len + 2

abbrev pub response_header_len : ℕ
response_header_len = Header.response_header_len + 2

abbrev pub push_header_len : ℕ
push_header_len = Header.push_header_len + 2

pub record HeaderV2 : Type 0 where
  pub metadata_length : ℕ
  pub base : Header.Header

unfoldable pub length_of : HeaderV2 → ℕ
length_of h =
    if h.base.type == request_packet
    then request_header_len
    else if h.base.type == response_packet
    then response_header_len
    else push_header_len

unfoldable pub pack : HeaderV2 → Result (List ℕ)
unfolding length_of
pack h =
    if is_unknown_packet h.base
    then err unknown_packet
    else if ltb max_body_length h.base.body_length
    then err body_len_hit_limit
    else do
      bytes ← write_at (replicate (length_of h) 0) 0 (first_byte h.base ∷ [])
      bytes ← write_at bytes 1 (h.base.cmd_code ∷ [])
      (bytes, idx) ← pack_ids h.base bytes 2
      bytes ← write_at bytes idx (put_uint16 h.metadata_length)
      write_at bytes (idx + 2) (split24 h.base.body_length)

-- The length of what follows the first byte.
unfoldable pub remain_len : HeaderV2 → ℕ
remain_len h =
    if h.base.type == request_packet
    then request_header_len - 1
    else if h.base.type == response_packet
    then response_header_len - 1
    else push_header_len - 1

-- `UnpackBytes` behind the first byte: the header and the bytes behind it.
unfoldable pub unpack_rest : HeaderV2 → List ℕ → Result (HeaderV2 × List ℕ)
unfolding remain_len
unpack_rest h frame =
    if is_unknown_packet h.base
    then err unknown_packet
    else if ltb (length frame) (remain_len h + 1)
    then err invalid_frame
    else do
      cmd ← index frame 1
      (base, idx) ← unpack_request_id (record h.base { cmd_code = cmd }) frame 2
      (base, idx) ← unpack_timeout base frame idx
      (base, idx) ← unpack_status base frame idx
      ml ← slice frame idx (idx + 2)
      fb ← index frame (idx + 2)
      sb ← index frame (idx + 3)
      tb ← index frame (idx + 4)
      ok (
        record { metadata_length = uint ml; base = record base { body_length = join24 fb sb tb } },
        drop (idx + 5) frame,
      )

unfoldable pub unpack_bytes : HeaderV2 → List ℕ → Result (HeaderV2 × List ℕ)
unpack_bytes h frame =
    if length frame == 0
    then err invalid_frame
    else do b ← index frame 0; unpack_rest (record h { base = set_first_byte b h.base }) frame

-- `headerPool.Get`: every field is reset.
unfoldable pub get : HeaderV2 → HeaderV2
get pooled = record { metadata_length = 0; base = Pool.get pooled.base }

-- `headerFromContext`: the header under way, or one from the pool.
unfoldable pub header_from_context : {A : Type 0} → HeaderV2 → Context HeaderV2 A → HeaderV2
header_from_context pooled ctx = elim ctx.header [ none ↦ get pooled | some h ↦ h ]

-- `headerFromMetadata`
unfoldable pub header_from_metadata : HeaderV2 → Metadata → HeaderV2
header_from_metadata pooled md = record {
  metadata_length = 0;
  base = Pool.header_from_metadata pooled.base md;
}
