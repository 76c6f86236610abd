-- ===== src/V2/Header/StreamTrip.antt =====
-- A packed version 2 header is read back from a buffer, whatever follows it.
use openapi_protocol.Base.{ℕ, ◌^◌, ◌<◌, ◌≤◌, ◌≡◌, refl, ◌∙◌, arith, List, ◌++◌, true, false, le→ltb}
use openapi_protocol.Base.Result.{done}
use openapi_protocol.V1.Header.{IsWord, empty, is_unknown_packet, max_body_length}
use openapi_protocol.V1.Header.RoundTrip.{known_type, same_type, set_first_byte-flags, wire}
use openapi_protocol.V1.Header.StreamTrip.{received, begun_by}
use openapi_protocol.V2.Header.{HeaderV2}
use openapi_protocol.V2.Header.Layout.{encode}
use openapi_protocol.V2.Header.RoundTrip.{empty_v2, fields-tail_of, drop-tail_of}
use openapi_protocol.V2.Header.Absorb.{absorb, absorb_rest}

-- The header that stands in the context behind the last byte of the header.
abbrev pub received_v2 : HeaderV2 → HeaderV2
received_v2 h = record { metadata_length = h.metadata_length; base = received h.base }

pub absorb-encode_v2 :
    (h : HeaderV2) (rest : List ℕ)
    → IsWord h.base
    → h.metadata_length < 2 ^ 16
    → is_unknown_packet h.base ≡ false
    → h.base.body_length ≤ max_body_length
    → absorb empty_v2 (encode h ++ rest) ≡ (received_v2 h, rest, done)
unfolding encode absorb absorb_rest wire
absorb-encode_v2 h rest w m known le =
    let small = known_type h.base known in
    let like = same_type h.base (begun_by h.base) refl in
    let to = record empty_v2 { base = begun_by h.base } in
    let to' = record empty_v2 { base = record (begun_by h.base) { is_unpacked = true } } in
    let dropped = drop-tail_of h to rest known refl in
    rw
      (
        set_first_byte-flags h.base empty (omega arith),
        like.0 ∙ known,
        le→ltb _ _ dropped.1,
        fields-tail_of h to' rest w m le known refl refl refl refl,
        dropped.0,
      )
      refl
