-- ===== src/V1/Header/RoundTrip.antt =====
-- A packed header is read back, from a frame and from a buffer.
use openapi_protocol.Base.{
  ℕ, ◌+◌, ◌*◌, ◌/◌, ◌%◌, ◌^◌, ◌<◌, ◌≤◌, ◌≡◌, refl, ◌∙◌, arith, List, ◌∷◌, ◌++◌, length, drop, false,
  ◌||◌, le→ltb, ◌==◌, if◌then◌else◌,
}
use openapi_protocol.Base.Result.{ok}
use openapi_protocol.Base.Bytes.{join24_sum, split24, uint-put_uint16, uint-put_uint32}
use openapi_protocol.Base.Bits.{bit_and-15, and_1, and_3}
use openapi_protocol.V1.Header.{
  Header, IsWord, empty, pack, is_unknown_packet, set_first_byte, unpack_bytes, remain_len,
  max_body_length, request_packet, response_packet,
}
use openapi_protocol.V1.Header.Layout.{flags, ids, encode, pack_lem}
use openapi_protocol.V1.Header.Fields.{body24, fields, unpack_bytes_lem}

-- What a packet carries of a header: the flags cut to their bits, and the fields of its type.
unfoldable pub wire : Header → Header
wire h = record h {
  request_id = if h.type == request_packet || h.type == response_packet then h.request_id else 0;
  timeout = if h.type == request_packet then h.timeout else 0;
  status_code = if h.type == response_packet then h.status_code else 0;
  verify = h.verify % 2;
  gzip = h.gzip % 2;
  reserve = h.reserve % 4;
  begin_unpack = false;
  is_unpacked = false;
}

pub set_first_byte-flags :
    (h to : Header)
    → h.type < 2 ^ 4
    → set_first_byte (flags h) to ≡ record to {
      type = h.type;
      verify = h.verify % 2;
      gzip = h.gzip % 2;
      reserve = h.reserve % 4;
    }
unfolding set_first_byte flags
set_first_byte-flags h to lt = ground (
  arith,
  bit_and-15 (h.type + h.verify % 2 * 2 ^ 4 + h.gzip % 2 * 2 ^ 5 + h.reserve % 4 * 2 ^ 6),
  and_1 ((h.type + h.verify % 2 * 2 ^ 4 + h.gzip % 2 * 2 ^ 5 + h.reserve % 4 * 2 ^ 6) / 2 ^ 4),
  and_1 ((h.type + h.verify % 2 * 2 ^ 4 + h.gzip % 2 * 2 ^ 5 + h.reserve % 4 * 2 ^ 6) / 2 ^ 5),
  and_3 ((h.type + h.verify % 2 * 2 ^ 4 + h.gzip % 2 * 2 ^ 5 + h.reserve % 4 * 2 ^ 6) / 2 ^ 6),
)

pub body24-split24 : (v : ℕ) (rest : List ℕ) → v ≤ max_body_length → body24 (split24 v ++ rest) ≡ v
unfolding body24
body24-split24 v rest h = omega (
  arith,
  join24_sum (v / 2 ^ 16 % 2 ^ 8) (v / 2 ^ 8 % 2 ^ 8) (v % 2 ^ 8) (omega arith) (omega arith)
      (omega arith),
)

-- The bytes behind the first one.
abbrev pub tail_of : Header → List ℕ
tail_of h = h.cmd_code ∷ (ids h ++ split24 h.body_length)

-- The fields of the type of `h`, over a header whose other fields are zero.
pub fields-tail_of :
    (h to : Header) (rest : List ℕ)
    → IsWord h
    → h.body_length ≤ max_body_length
    → is_unknown_packet h ≡ false
    → to.type ≡ h.type
    → to.request_id ≡ 0
    → to.timeout ≡ 0
    → to.status_code ≡ 0
    → fields to (tail_of h ++ rest) ≡ record to {
      cmd_code = h.cmd_code;
      body_length = h.body_length;
      request_id = (wire h).request_id;
      timeout = (wire h).timeout;
      status_code = (wire h).status_code;
    }
unfolding fields ids wire is_unknown_packet
fields-tail_of h to rest w le known et er em es = ground (
  arith,
  uint-put_uint32 h.request_id,
  uint-put_uint16 h.timeout,
  body24-split24 h.body_length rest,
)

pub drop-tail_of :
    (h : Header) (rest : List ℕ)
    → is_unknown_packet h ≡ false
    → (drop (remain_len h) (tail_of h ++ rest) ≡ rest) × (remain_len h ≤ length (tail_of h ++ rest))
unfolding remain_len ids is_unknown_packet
drop-tail_of h rest known = ground arith

pub known_type : (h : Header) → is_unknown_packet h ≡ false → (1 ≤ h.type) × (h.type ≤ 3)
unfolding is_unknown_packet
known_type h e = ground arith

-- The header that the first byte of `h` makes of an empty one.
abbrev pub started : Header → Header
started h = record empty {
  type = h.type;
  verify = h.verify % 2;
  gzip = h.gzip % 2;
  reserve = h.reserve % 4;
}

pub same_type :
    (h to : Header)
    → to.type ≡ h.type
    → (is_unknown_packet to ≡ is_unknown_packet h) × (remain_len to ≡ remain_len h)
unfolding is_unknown_packet remain_len
same_type h to e = (rw e, rw e)

pub pack-encode :
    (h : Header)
    → IsWord h
    → is_unknown_packet h ≡ false
    → h.body_length ≤ max_body_length
    → pack h ≡ ok (encode h)
pack-encode h w known le = pack_lem h w ∙ rw (known, le→ltb _ _ le) refl

pub unpack_bytes-encode :
    (h : Header) (rest : List ℕ)
    → IsWord h
    → is_unknown_packet h ≡ false
    → h.body_length ≤ max_body_length
    → unpack_bytes empty (encode h ++ rest) ≡ ok (wire h, rest)
unfolding encode wire
unpack_bytes-encode h rest w known le =
    let small = known_type h known in
    let like = same_type h (started h) refl in
    let dropped = drop-tail_of h rest known in
    (unpack_bytes_lem empty (flags h) (tail_of h ++ rest)).1
    ∙ rw
        (
          set_first_byte-flags h empty (omega arith),
          like.0,
          known,
          like.1,
          le→ltb _ _ dropped.1,
          fields-tail_of h (started h) rest w le known refl refl refl refl,
          dropped.0,
        )
        refl

-- A header of a known type whose body length fits 24 bits is read back from the bytes that `Pack`
-- writes, as far as a packet of its type carries it, and the bytes that follow are returned.
pub unpack_bytes-pack :
    (h : Header) (rest : List ℕ)
    → IsWord h
    → is_unknown_packet h ≡ false
    → h.body_length ≤ max_body_length
    → (bytes : List ℕ) × (pack h ≡ ok bytes)
      × (unpack_bytes empty (bytes ++ rest) ≡ ok (wire h, rest))
unpack_bytes-pack h rest w known le =
    (encode h, pack-encode h w known le, unpack_bytes-encode h rest w known le)
