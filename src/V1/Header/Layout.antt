-- ===== src/V1/Header/Layout.antt =====
-- The binary form of a header, byte by byte, and that `Pack` writes it.
use openapi_protocol.Base.{
  ℕ, ◌+◌, ◌*◌, ◌%◌, ◌^◌, ◌<◌, ◌≡◌, arith, List, [], ◌∷◌, ◌++◌, ltb, ◌==◌, if◌then◌else◌,
}
use openapi_protocol.Base.Result.{ok, err, unknown_packet, body_len_hit_limit, write_at}
use openapi_protocol.Base.Bytes.{put_uint16, put_uint32, split24}
use openapi_protocol.Base.Bits.{or_flags_sum, and_15, and_1, and_3}
use openapi_protocol.V1.Header.{
  Header, IsWord, pack, first_byte, is_unknown_packet, max_body_length, request_packet,
  response_packet,
}

-- The first byte as a sum.
unfoldable pub flags : Header → ℕ
flags h = h.type + h.verify % 2 * 2 ^ 4 + h.gzip % 2 * 2 ^ 5 + h.reserve % 4 * 2 ^ 6

-- What stands between the command and the lengths: id and timeout, id and status, or nothing.
unfoldable pub ids : Header → List ℕ
ids h =
    if h.type == request_packet
    then put_uint32 h.request_id ++ put_uint16 h.timeout
    else if h.type == response_packet
    then put_uint32 h.request_id ++ (h.status_code ∷ [])
    else []

unfoldable pub encode : Header → List ℕ
unfolding flags ids
encode h = flags h ∷ h.cmd_code ∷ (ids h ++ split24 h.body_length)

pub first_byte_sum : (h : Header) → IsWord h → h.type < 2 ^ 4 → first_byte h ≡ flags h
unfolding first_byte flags
first_byte_sum h w lt = ground (
  arith,
  and_15 h.type,
  and_1 h.verify,
  and_1 h.gzip,
  and_3 h.reserve,
  or_flags_sum h.type (h.verify % 2) (h.gzip % 2) (h.reserve % 4),
)

-- `Pack` refuses an unknown type, then a body length past 24 bits; else it writes the layout.
pub pack_lem :
    (h : Header)
    → IsWord h
    → pack h ≡ (
        if is_unknown_packet h
        then err unknown_packet
        else if ltb max_body_length h.body_length
        then err body_len_hit_limit
        else ok (encode h))
unfolding pack encode is_unknown_packet write_at
pack_lem h w = ground (arith, first_byte_sum h w)
