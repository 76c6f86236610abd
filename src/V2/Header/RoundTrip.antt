-- ===== src/V2/Header/RoundTrip.antt =====
-- A packed version 2 header is read back from a frame.
use openapi_protocol.Base.{
  ℕ, ◌^◌, ◌<◌, ◌≤◌, ◌≡◌, refl, ◌∙◌, arith, List, ◌∷◌, ◌++◌, length, drop, false, le→ltb,
}
use openapi_protocol.Base.Result.{ok}
use openapi_protocol.Base.Bytes.{put_uint16, split24, uint-put_uint16, uint-put_uint32}
use openapi_protocol.V1.Header.{IsWord, empty, is_unknown_packet, max_body_length}
use openapi_protocol.V1.Header.Layout.{flags, ids}
use openapi_protocol.V1.Header.RoundTrip.{
  wire, set_first_byte-flags, body24-split24, known_type, started, same_type,
}
use openapi_protocol.V2.Header.{HeaderV2, pack, remain_len, unpack_bytes}
use openapi_protocol.V2.Header.Layout.{encode, pack_header_lem}
use openapi_protocol.V2.Header.Fields.{fields, unpack_bytes_header_lem}

-- The zero value.
abbrev pub empty_v2 : HeaderV2
empty_v2 = record { metadata_length = 0; base = empty }

-- What a version 2 packet carries of a header.
unfoldable pub wire_v2 : HeaderV2 → HeaderV2
wire_v2 h = record h { base = wire h.base }

-- The bytes behind the first one.
abbrev pub tail_of : HeaderV2 → List ℕ
tail_of h =
    h.base.cmd_code ∷ (ids h.base ++ (put_uint16 h.metadata_length ++ split24 h.base.body_length))

-- The fields of the type of `h`, over a header whose other fields are zero.
pub fields-tail_of :
    (h to : HeaderV2) (rest : List ℕ)
    → IsWord h.base
    → h.metadata_length < 2 ^ 16
    → h.base.body_length ≤ max_body_length
    → is_unknown_packet h.base ≡ false
    → to.base.type ≡ h.base.type
    → to.base.request_id ≡ 0
    → to.base.timeout ≡ 0
    → to.base.status_code ≡ 0
    → fields to (tail_of h ++ rest) ≡ record {
      metadata_length = h.metadata_length;
      base = record to.base {
        cmd_code = h.base.cmd_code;
        body_length = h.base.body_length;
        request_id = (wire h.base).request_id;
        timeout = (wire h.base).timeout;
        status_code = (wire h.base).status_code;
      };
    }
unfolding fields ids wire is_unknown_packet
fields-tail_of h to rest w m le known e er em es = ground (
  arith,
  uint-put_uint32 h.base.request_id,
  uint-put_uint16 h.base.timeout,
  uint-put_uint16 h.metadata_length,
  body24-split24 h.base.body_length rest,
)

pub drop-tail_of :
    (h to : HeaderV2) (rest : List ℕ)
    → is_unknown_packet h.base ≡ false
    → to.base.type ≡ h.base.type
    → (drop (remain_len to) (tail_of h ++ rest) ≡ rest)
      × (remain_len to ≤ length (tail_of h ++ rest))
unfolding remain_len ids is_unknown_packet
drop-tail_of h to rest known e = ground arith

pub unpack_bytes-encode :
    (h : HeaderV2) (rest : List ℕ)
    → IsWord h.base
    → h.metadata_length < 2 ^ 16
    → is_unknown_packet h.base ≡ false
    → h.base.body_length ≤ max_body_length
    → unpack_bytes empty_v2 (encode h ++ rest) ≡ ok (wire_v2 h, rest)
unfolding encode wire_v2 wire
unpack_bytes-encode h rest w m known le =
    let small = known_type h.base known in
    let like = same_type h.base (started h.base) refl in
    let to = record empty_v2 { base = started h.base } in
    let dropped = drop-tail_of h to rest known refl in
    unpack_bytes_header_lem empty_v2 (flags h.base) (tail_of h ++ rest)
    ∙ rw
        (
          set_first_byte-flags h.base empty (omega arith),
          like.0,
          known,
          le→ltb _ _ dropped.1,
          fields-tail_of h to rest w m le known refl refl refl refl,
          dropped.0,
        )
        refl

-- A version 2 header of a known type whose fields have their widths and whose body length fits 24
-- bits is read back from the bytes that `Pack` writes, the length of the metadata included, as far
-- as a packet of its type carries it, and the bytes that follow are returned.
pub unpack_bytes-pack_header :
    (h : HeaderV2) (rest : List ℕ)
    → IsWord h.base
    → h.metadata_length < 2 ^ 16
    → is_unknown_packet h.base ≡ false
    → h.base.body_length ≤ max_body_length
    → (bytes : List ℕ) × (pack h ≡ ok bytes)
      × (unpack_bytes empty_v2 (bytes ++ rest) ≡ ok (wire_v2 h, rest))
unpack_bytes-pack_header h rest w m known le = (
  encode h,
  pack_header_lem h w ∙ rw (known, le→ltb _ _ le) refl,
  unpack_bytes-encode h rest w m known le,
)
