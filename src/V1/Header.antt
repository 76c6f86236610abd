-- ===== src/V1/Header.antt =====
-- go/v1/header.go: the header of a version 1 packet and its binary form. The fields are unsigned
-- integers of the widths that `IsWord` gives.
pub mod Layout
pub mod Buffered
pub mod Fields
pub mod Absorb
pub mod Append
pub mod Pool
pub mod RoundTrip
pub mod StreamTrip
use openapi_protocol.Base.{
  ℕ, zero, suc, ◌+◌, ◌-◌, ◌*◌, ◌/◌, ◌%◌, ◌^◌, ◌<◌, bit_and, List, [], ◌∷◌, length, replicate, drop,
  Bool, true, false, ◌||◌, ltb, leb, ◌==◌, if◌then◌else◌,
}
use openapi_protocol.Base.Result.{
  Result, ok, err, panic, unknown_packet, body_len_hit_limit, invalid_frame, ◌>>=◌, index, slice,
  write_at,
}
use openapi_protocol.Base.Bytes.{uint, put_uint16, put_uint32, join24, split24}
use openapi_protocol.Base.Bits.{or_flags}

abbrev pub request_packet : ℕ
request_packet = 1

abbrev pub response_packet : ℕ
response_packet = 2

abbrev pub push_packet : ℕ
push_packet = 3

abbrev pub request_header_len : ℕ
request_header_len = 11

abbrev pub response_header_len : ℕ
response_header_len = 10

abbrev pub push_header_len : ℕ
push_header_len = 5

abbrev pub header_type_mask : ℕ
header_type_mask = 0xf

abbrev pub max_body_length : ℕ
max_body_length = 2 ^ 24 - 1

pub record Header : Type 0 where
  pub request_id : ℕ
  pub body_length : ℕ
  pub timeout : ℕ
  pub type : ℕ
  pub verify : ℕ
  pub gzip : ℕ
  pub reserve : ℕ
  pub cmd_code : ℕ
  pub status_code : ℕ
  pub begin_unpack : Bool
  pub is_unpacked : Bool

-- The zero value `Header{}`.
abbrev pub empty : Header
empty = record {
  request_id = 0;
  body_length = 0;
  timeout = 0;
  type = 0;
  verify = 0;
  gzip = 0;
  reserve = 0;
  cmd_code = 0;
  status_code = 0;
  begin_unpack = false;
  is_unpacked = false;
}

unfoldable pub is_unknown_packet : Header → Bool
is_unknown_packet h =
    if h.type == request_packet
    then false
    else if h.type == response_packet
    then false
    else if h.type == push_packet
    then false
    else true

unfoldable pub length_of : Header → ℕ
length_of h =
    if h.type == request_packet
    then request_header_len
    else if h.type == response_packet
    then response_header_len
    else push_header_len

-- `type:4, verify:1, gzip:1, reserve:2`
unfoldable pub first_byte : Header → ℕ
first_byte h =
    or_flags (bit_and h.type 0xf) (bit_and h.verify 0x1) (bit_and h.gzip 0x1)
      (bit_and h.reserve 0x3)

-- The four fields from the first byte, the same in `UnpackBytes` and `Unpack`.
unfoldable pub set_first_byte : ℕ → Header → Header
set_first_byte b h = record h {
  type = bit_and header_type_mask b;
  verify = bit_and (b / 2 ^ 4) 0x1;
  gzip = bit_and (b / 2 ^ 5) 0x1;
  reserve = bit_and (b / 2 ^ 6) 0x3;
}

-- The fields of one packet type each; each returns the index where the next field goes.
unfoldable pub pack_timeout : Header → List ℕ → ℕ → Result (List ℕ × ℕ)
pack_timeout h bytes idx =
    if h.type == request_packet
    then (do bytes ← write_at bytes idx (put_uint16 h.timeout); ok (bytes, idx + 2))
    else ok (bytes, idx)

unfoldable pub pack_status : Header → List ℕ → ℕ → Result (List ℕ × ℕ)
pack_status h bytes idx =
    if h.type == response_packet
    then (do bytes ← write_at bytes idx (h.status_code ∷ []); ok (bytes, idx + 1))
    else ok (bytes, idx)

unfoldable pub pack_ids : Header → List ℕ → ℕ → Result (List ℕ × ℕ)
unfolding pack_timeout pack_status
pack_ids h bytes idx =
    if h.type == request_packet || h.type == response_packet
    then (do
      bytes ← write_at bytes idx (put_uint32 h.request_id)
      (bytes, idx) ← pack_timeout h bytes (idx + 4)
      pack_status h bytes idx)
    else ok (bytes, idx)

unfoldable pub pack : Header → Result (List ℕ)
unfolding is_unknown_packet length_of first_byte pack_ids
pack h =
    if is_unknown_packet h
    then err unknown_packet
    else if ltb max_body_length h.body_length
    then err body_len_hit_limit
    else do
      bytes ← write_at (replicate (length_of h) 0) 0 (first_byte h ∷ [])
      bytes ← write_at bytes 1 (h.cmd_code ∷ [])
      (bytes, idx) ← pack_ids h bytes 2
      write_at bytes idx (split24 h.body_length)

-- The length of what follows the first byte.
unfoldable pub remain_len : Header → ℕ
remain_len h =
    if h.type == request_packet
    then request_header_len - 1
    else if h.type == response_packet
    then response_header_len - 1
    else push_header_len - 1

-- The fields of one packet type each, at an index of the frame.
unfoldable pub unpack_request_id : Header → List ℕ → ℕ → Result (Header × ℕ)
unpack_request_id h frame idx =
    if h.type == request_packet || h.type == response_packet
    then (do id ← slice frame idx (idx + 4); ok (record h { request_id = uint id }, idx + 4))
    else ok (h, idx)

unfoldable pub unpack_timeout : Header → List ℕ → ℕ → Result (Header × ℕ)
unpack_timeout h frame idx =
    if h.type == request_packet
    then (do t ← slice frame idx (idx + 2); ok (record h { timeout = uint t }, idx + 2))
    else ok (h, idx)

unfoldable pub unpack_status : Header → List ℕ → ℕ → Result (Header × ℕ)
unpack_status h frame idx =
    if h.type == response_packet
    then (do s ← index frame idx; ok (record h { status_code = s }, idx + 1))
    else ok (h, idx)

-- `UnpackBytes` behind the first byte: the header and the bytes behind it.
unfoldable pub unpack_rest : Header → List ℕ → Result (Header × List ℕ)
unfolding is_unknown_packet remain_len unpack_request_id unpack_timeout unpack_status
unpack_rest h frame =
    if is_unknown_packet h
    then err unknown_packet
    else if ltb (length frame) (remain_len h + 1)
    then err invalid_frame
    else do
      cmd ← index frame 1
      (h, idx) ← unpack_request_id (record h { cmd_code = cmd }) frame 2
      (h, idx) ← unpack_timeout h frame idx
      (h, idx) ← unpack_status h frame idx
      fb ← index frame idx
      sb ← index frame (idx + 1)
      tb ← index frame (idx + 2)
      ok (record h { body_length = join24 fb sb tb }, drop (idx + 3) frame)

unfoldable pub unpack_bytes : Header → List ℕ → Result (Header × List ℕ)
unfolding set_first_byte
unpack_bytes h frame =
    if length frame == 0
    then err invalid_frame
    else do b ← index frame 0; unpack_rest (set_first_byte b h) frame

-- The widths of the fields.
pub record IsWord (h : Header) : Type 0 where
  pub request_id_u32 : h.request_id < 2 ^ 32
  pub body_length_u32 : h.body_length < 2 ^ 32
  pub timeout_u16 : h.timeout < 2 ^ 16
  pub type_u8 : h.type < 2 ^ 8
  pub verify_u8 : h.verify < 2 ^ 8
  pub gzip_u8 : h.gzip < 2 ^ 8
  pub reserve_u8 : h.reserve < 2 ^ 8
  pub cmd_code_u8 : h.cmd_code < 2 ^ 8
  pub status_code_u8 : h.status_code < 2 ^ 8
