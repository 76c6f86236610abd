-- ===== src/V2/Header/Layout.antt =====
-- The binary form of a version 2 header, byte by byte, and that `Pack` writes it.
use openapi_protocol.Base.{ℕ, ◌≡◌, arith, List, ◌∷◌, ◌++◌, ltb, if◌then◌else◌}
use openapi_protocol.Base.Result.{ok, err, unknown_packet, body_len_hit_limit, write_at}
use openapi_protocol.Base.Bytes.{put_uint16, split24}
use openapi_protocol.V1.Header.{IsWord, pack_ids, is_unknown_packet, max_body_length}
use openapi_protocol.V1.Header.Layout.{flags, ids, first_byte_sum}
use openapi_protocol.V2.Header.{HeaderV2, pack}

unfoldable pub encode : HeaderV2 → List ℕ
encode h =
    flags h.base
    ∷ h.base.cmd_code
    ∷ (ids h.base ++ (put_uint16 h.metadata_length ++ split24 h.base.body_length))

-- `Pack` of version 2 refuses an unknown type, then a body length past 24 bits; else it writes the
-- layout.
pub pack_header_lem :
    (h : HeaderV2)
    → IsWord h.base
    → pack h ≡ (
        if is_unknown_packet h.base
        then err unknown_packet
        else if ltb max_body_length h.base.body_length
        then err body_len_hit_limit
        else ok (encode h))
unfolding pack encode ids is_unknown_packet write_at pack_ids
pack_header_lem h w = ground (arith, first_byte_sum h.base w)
