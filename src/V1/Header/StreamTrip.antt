-- ===== src/V1/Header/StreamTrip.antt =====
-- A packed header is read back from a buffer, whatever follows it.
use openapi_protocol.Base.{
  ℕ, ◌%◌, ◌≤◌, ◌≡◌, refl, ◌∙◌, arith, List, ◌∷◌, ◌++◌, length, drop, true, false, le→ltb,
}
use openapi_protocol.Base.Result.{done}
use openapi_protocol.V1.Header.{
  Header, IsWord, empty, is_unknown_packet, max_body_length, remain_len,
}
use openapi_protocol.V1.Header.Layout.{flags, encode}
use openapi_protocol.V1.Header.Absorb.{absorb, absorb_rest}
use openapi_protocol.V1.Header.Append.{begun}
use openapi_protocol.V1.Header.Fields.{fields}
use openapi_protocol.V1.Header.RoundTrip.{
  wire, known_type, same_type, set_first_byte-flags, tail_of, fields-tail_of, drop-tail_of,
}

-- The header that stands in the context behind the last byte of the header.
abbrev pub received : Header → Header
received h = record (wire h) { begin_unpack = true; is_unpacked = true }

abbrev pub begun_by : Header → Header
begun_by h = record empty {
  type = h.type;
  verify = h.verify % 2;
  gzip = h.gzip % 2;
  reserve = h.reserve % 4;
  begin_unpack = true;
}

rest_enough :
    (h : Header) (bytes : List ℕ)
    → is_unknown_packet h ≡ false
    → remain_len h ≤ length bytes
    → absorb_rest h bytes
      ≡ (fields (record h { is_unpacked = true }) bytes, drop (remain_len h) bytes, done)
unfolding absorb_rest
rest_enough h bytes known le = rw (known, le→ltb _ _ le)

absorb_fresh :
    (h : Header) (x : ℕ) (bytes : List ℕ)
    → h.begin_unpack ≡ false
    → h.is_unpacked ≡ false
    → absorb h (x ∷ bytes) ≡ absorb_rest (begun x h) bytes
unfolding absorb
absorb_fresh h x bytes b u = simp (u, b)

pub absorb-encode :
    (h : Header) (rest : List ℕ)
    → IsWord h
    → is_unknown_packet h ≡ false
    → h.body_length ≤ max_body_length
    → absorb empty (encode h ++ rest) ≡ (received h, rest, done)
unfolding encode wire
absorb-encode h rest w known le =
    let small = known_type h known in
    let like = same_type h (begun_by h) refl in
    let dropped = drop-tail_of h rest known in
    absorb_fresh empty (flags h) (tail_of h ++ rest) refl refl
    ∙ rw (set_first_byte-flags h empty (omega arith)) (
        rest_enough (begun_by h) (tail_of h ++ rest) (like.0 ∙ known) (rw like.1 dropped.1)
        ∙ rw
            (
              like.1,
              dropped.0,
              fields-tail_of h (record (begun_by h) { is_unpacked = true }) rest w le known refl
                  refl refl refl,
            )
            refl)
