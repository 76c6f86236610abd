-- ===== src/V1/Header/Fields.antt =====
-- What both `UnpackBytes` and `Unpack` read from the bytes behind the first one, as one function
-- of these bytes.
use openapi_protocol.Base.{
  ℕ, ◌≤◌, ◌≡◌, refl, ◌∙◌, arith, List, [], ◌∷◌, length, take, drop, get_or, ltb, ◌==◌,
  if◌then◌else◌,
}
use openapi_protocol.Base.Result.{ok, err, unknown_packet, invalid_frame}
use openapi_protocol.Base.Bytes.{uint, join24}
use openapi_protocol.V1.Header.{
  Header, is_unknown_packet, remain_len, set_first_byte, unpack_rest, unpack_bytes, request_packet,
  response_packet, push_packet,
}

unfoldable pub body24 : List ℕ → ℕ
body24 (fb ∷ sb ∷ tb ∷ rest) = join24 fb sb tb
body24 bytes = 0

-- The header with the fields that its type has, read from the bytes behind the first one.
unfoldable pub fields : Header → List ℕ → Header
unfolding body24
fields h bytes =
    if h.type == request_packet
    then record h {
      cmd_code = get_or bytes 0 0;
      request_id = uint (take 4 (drop 1 bytes));
      timeout = uint (take 2 (drop 5 bytes));
      body_length = body24 (drop 7 bytes);
    }
    else if h.type == response_packet
    then record h {
      cmd_code = get_or bytes 0 0;
      request_id = uint (take 4 (drop 1 bytes));
      status_code = get_or bytes 5 0;
      body_length = body24 (drop 6 bytes);
    }
    else record h { cmd_code = get_or bytes 0 0; body_length = body24 (drop 1 bytes) }

request_rest :
    (h : Header) (b : ℕ) (bytes : List ℕ)
    → h.type ≡ request_packet
    → 10 ≤ length bytes
    → unpack_rest h (b ∷ bytes) ≡ ok (fields h bytes, drop 10 bytes)
unfolding unpack_rest fields
request_rest h b (c ∷ i0 ∷ i1 ∷ i2 ∷ i3 ∷ t0 ∷ t1 ∷ l0 ∷ l1 ∷ l2 ∷ rest) e le = rw e (ground arith)
request_rest h b bytes e le = absurd (omega arith)

response_rest :
    (h : Header) (b : ℕ) (bytes : List ℕ)
    → h.type ≡ response_packet
    → 9 ≤ length bytes
    → unpack_rest h (b ∷ bytes) ≡ ok (fields h bytes, drop 9 bytes)
unfolding unpack_rest fields
response_rest h b (c ∷ i0 ∷ i1 ∷ i2 ∷ i3 ∷ s ∷ l0 ∷ l1 ∷ l2 ∷ rest) e le = rw e (ground arith)
response_rest h b bytes e le = absurd (omega arith)

push_rest :
    (h : Header) (b : ℕ) (bytes : List ℕ)
    → h.type ≡ push_packet
    → 4 ≤ length bytes
    → unpack_rest h (b ∷ bytes) ≡ ok (fields h bytes, drop 4 bytes)
unfolding unpack_rest fields
push_rest h b (c ∷ l0 ∷ l1 ∷ l2 ∷ rest) e le = rw e (ground arith)
push_rest h b bytes e le = absurd (omega arith)

short_rest :
    (h : Header) (b : ℕ) (bytes : List ℕ)
    → unpack_rest h (b ∷ bytes) ≡ (
        if is_unknown_packet h
        then err unknown_packet
        else if ltb (length bytes) (remain_len h)
        then err invalid_frame
        else unpack_rest h (b ∷ bytes))
unfolding unpack_rest
short_rest h b bytes = ground arith

-- `UnpackBytes` on every frame.
pub unpack_rest_lem :
    (h : Header) (b : ℕ) (bytes : List ℕ)
    → unpack_rest h (b ∷ bytes) ≡ (
        if is_unknown_packet h
        then err unknown_packet
        else if ltb (length bytes) (remain_len h)
        then err invalid_frame
        else ok (fields h bytes, drop (remain_len h) bytes))
unfolding is_unknown_packet remain_len
unpack_rest_lem h b bytes = ground (
  arith,
  request_rest h b bytes,
  response_rest h b bytes,
  push_rest h b bytes,
  short_rest h b bytes,
)

enters_rest :
    (h : Header) (b : ℕ) (bytes : List ℕ)
    → unpack_bytes h (b ∷ bytes) ≡ unpack_rest (set_first_byte b h) (b ∷ bytes)
unfolding unpack_bytes
enters_rest h b bytes = ground arith

-- `UnpackBytes` decides by the type and the length alone, and never reads past the frame: the
-- empty frame is refused, then an unknown type, then a frame shorter than its header; from any
-- other it takes the header's fields and leaves the bytes behind them.
pub unpack_bytes_lem :
    (h : Header) (b : ℕ) (bytes : List ℕ)
    → (unpack_bytes h [] ≡ err invalid_frame)
      × (unpack_bytes h (b ∷ bytes) ≡ (
          if is_unknown_packet (set_first_byte b h)
          then err unknown_packet
          else if ltb (length bytes) (remain_len (set_first_byte b h))
          then err invalid_frame
          else ok
              (fields (set_first_byte b h) bytes, drop (remain_len (set_first_byte b h)) bytes)))
unpack_bytes_lem h b bytes = (
  unfold unpack_bytes in refl,
  enters_rest h b bytes ∙ unpack_rest_lem (set_first_byte b h) b bytes,
)
