-- ===== src/V2/Header/Fields.antt =====
-- What `UnpackBytes` of version 2 reads from the bytes behind the first one.
use openapi_protocol.Base.{
  ℕ, ◌≤◌, ◌≡◌, ◌∙◌, arith, List, ◌∷◌, length, take, drop, get_or, ltb, ◌==◌, if◌then◌else◌,
}
use openapi_protocol.Base.Result.{ok, err, unknown_packet, invalid_frame}
use openapi_protocol.Base.Bytes.{uint}
use openapi_protocol.V1.Header.{
  is_unknown_packet, set_first_byte, request_packet, response_packet, push_packet,
  unpack_request_id, unpack_timeout, unpack_status,
}
use openapi_protocol.V1.Header.Fields.{body24}
use openapi_protocol.V2.Header.{HeaderV2, remain_len, unpack_rest, unpack_bytes}

-- The header with the fields that its type has, read from the bytes behind the first one.
unfoldable pub fields : HeaderV2 → List ℕ → HeaderV2
fields h bytes =
    if h.base.type == request_packet
    then record {
      metadata_length = uint (take 2 (drop 7 bytes));
      base = record h.base {
        cmd_code = get_or bytes 0 0;
        request_id = uint (take 4 (drop 1 bytes));
        timeout = uint (take 2 (drop 5 bytes));
        body_length = body24 (drop 9 bytes);
      };
    }
    else if h.base.type == response_packet
    then record {
      metadata_length = uint (take 2 (drop 6 bytes));
      base = record h.base {
        cmd_code = get_or bytes 0 0;
        request_id = uint (take 4 (drop 1 bytes));
        status_code = get_or bytes 5 0;
        body_length = body24 (drop 8 bytes);
      };
    }
    else record {
      metadata_length = uint (take 2 (drop 1 bytes));
      base = record h.base { cmd_code = get_or bytes 0 0; body_length = body24 (drop 3 bytes) };
    }

request_rest :
    (h : HeaderV2) (b : ℕ) (bytes : List ℕ)
    → h.base.type ≡ request_packet
    → 12 ≤ length bytes
    → unpack_rest h (b ∷ bytes) ≡ ok (fields h bytes, drop 12 bytes)
unfolding unpack_rest fields body24 is_unknown_packet unpack_request_id unpack_timeout unpack_status
request_rest h b (c ∷ i0 ∷ i1 ∷ i2 ∷ i3 ∷ t0 ∷ t1 ∷ m0 ∷ m1 ∷ l0 ∷ l1 ∷ l2 ∷ rest) e le =
    rw e (ground arith)
request_rest h b bytes e le = absurd (omega arith)

response_rest :
    (h : HeaderV2) (b : ℕ) (bytes : List ℕ)
    → h.base.type ≡ response_packet
    → 11 ≤ length bytes
    → unpack_rest h (b ∷ bytes) ≡ ok (fields h bytes, drop 11 bytes)
unfolding unpack_rest fields body24 is_unknown_packet unpack_request_id unpack_timeout unpack_status
response_rest h b (c ∷ i0 ∷ i1 ∷ i2 ∷ i3 ∷ s ∷ m0 ∷ m1 ∷ l0 ∷ l1 ∷ l2 ∷ rest) e le =
    rw e (ground arith)
response_rest h b bytes e le = absurd (omega arith)

push_rest :
    (h : HeaderV2) (b : ℕ) (bytes : List ℕ)
    → h.base.type ≡ push_packet
    → 6 ≤ length bytes
    → unpack_rest h (b ∷ bytes) ≡ ok (fields h bytes, drop 6 bytes)
unfolding unpack_rest fields body24 is_unknown_packet unpack_request_id unpack_timeout unpack_status
push_rest h b (c ∷ m0 ∷ m1 ∷ l0 ∷ l1 ∷ l2 ∷ rest) e le = rw e (ground arith)
push_rest h b bytes e le = absurd (omega arith)

short_rest :
    (h : HeaderV2) (b : ℕ) (bytes : List ℕ)
    → unpack_rest h (b ∷ bytes) ≡ (
        if is_unknown_packet h.base
        then err unknown_packet
        else if ltb (length bytes) (remain_len h)
        then err invalid_frame
        else unpack_rest h (b ∷ bytes))
unfolding unpack_rest
short_rest h b bytes = ground arith

rest_lem :
    (h : HeaderV2) (b : ℕ) (bytes : List ℕ)
    → unpack_rest h (b ∷ bytes) ≡ (
        if is_unknown_packet h.base
        then err unknown_packet
        else if ltb (length bytes) (remain_len h)
        then err invalid_frame
        else ok (fields h bytes, drop (remain_len h) bytes))
unfolding is_unknown_packet remain_len
rest_lem h b bytes = ground (
  arith,
  request_rest h b bytes,
  response_rest h b bytes,
  push_rest h b bytes,
  short_rest h b bytes,
)

enters_rest :
    (h : HeaderV2) (b : ℕ) (bytes : List ℕ)
    → unpack_bytes h (b ∷ bytes)
      ≡ unpack_rest (record h { base = set_first_byte b h.base }) (b ∷ bytes)
unfolding unpack_bytes
enters_rest h b bytes = ground arith

-- `UnpackBytes` of version 2 decides by the type and the length alone, and never reads past the
-- frame: it refuses an unknown type, then a frame shorter than its header; from any other it takes
-- the header's fields and leaves the bytes behind them.
pub unpack_bytes_header_lem :
    (h : HeaderV2) (b : ℕ) (bytes : List ℕ)
    → unpack_bytes h (b ∷ bytes) ≡ (
        if is_unknown_packet (set_first_byte b h.base)
        then err unknown_packet
        else if ltb (length bytes) (remain_len (record h { base = set_first_byte b h.base }))
        then err invalid_frame
        else ok (
          fields (record h { base = set_first_byte b h.base }) bytes,
          drop (remain_len (record h { base = set_first_byte b h.base })) bytes,
        ))
unpack_bytes_header_lem h b bytes =
    enters_rest h b bytes ∙ rest_lem (record h { base = set_first_byte b h.base }) b bytes
