-- ===== src/V2/Packet/Layout.antt =====
-- The binary form of a version 2 packet, and that `Pack` writes it.
use openapi_protocol.Base.{
  ℕ, ◌+◌, ◌-◌, ◌%◌, ◌^◌, ◌≤◌, ◌≡◌, refl, sym, ap, ◌∙◌, arith, List, ◌++◌, append-nil, append_assoc,
  length, length-append, length-take, take, drop, take-append-drop, false, ltb, ltb→le, le→ltb,
  if◌then◌else◌, Bool-cases, inl, inr,
}
use openapi_protocol.Base.Result.{
  ok, err, body_len_hit_limit, unknown_packet, overwrite, write_at, ◌>>=◌,
}
use openapi_protocol.Base.Bytes.{put_uint64}
use openapi_protocol.Base.Copies.{zeros, length-zeros, overwrite_three, signed_over}
use openapi_protocol.Metadata.Values.{marshal_values}
use openapi_protocol.Metadata.Values.Kept.{length-marshal_values}
use openapi_protocol.Packet.{Packet}
use openapi_protocol.V1.Header.{max_body_length, is_unknown_packet}
use openapi_protocol.V1.Header.Pool
use openapi_protocol.V1.Header.Layout.{ids}
use openapi_protocol.V1.Packet.Layout.{IsWordMetadata, header_of, header_of-IsWord}
use openapi_protocol.V2.Header
use openapi_protocol.V2.Header.{HeaderV2, header_from_metadata}
use openapi_protocol.V2.Header.Layout.{encode, pack_header_lem}
use openapi_protocol.V2.Packet.{
  max_metadata_length, frame_header_len, fill, with_lengths, pack_frame,
}

-- The bytes of the metadata.
abbrev pub block : Packet → List ℕ
block p = marshal_values p.metadata max_metadata_length

-- The header of a packet.
unfoldable pub header_v2 : Packet → HeaderV2
header_v2 p = record {
  metadata_length = length (block p);
  base = header_of p.metadata (length p.body);
}

-- What stands behind the header. In a verified packet the nonce and the signature are written where
-- the body ends if there is no metadata: with metadata they stand over the end of the body, what
-- has no room there is cut off, and what they leave of the last bytes is zero.
unfoldable pub behind_header : Packet → List ℕ
behind_header p =
    let whole = block p ++ p.body in
    let over = drop (length p.body) whole ++ zeros 24 in
    if p.metadata.verify
    then take (length p.body) whole
      ++ (put_uint64 p.metadata.nonce
          ++ (take (length over - 8) p.metadata.signature
              ++ drop (length p.metadata.signature) (drop 8 over)))
    else whole

unfoldable pub frame : Packet → List ℕ
frame p = encode (header_v2 p) ++ behind_header p

fill_lem :
    (p : Packet) (hd : List ℕ) (hl : ℕ)
    → length hd ≡ hl
    → fill p (block p) hd hl ≡ ok (hd ++ behind_header p)
unfolding fill behind_header
fill_lem p hd hl e =
    let md = block p in
    let bl = length p.body in
    let whole = md ++ p.body in
    elim (Bool-cases p.metadata.verify) [
      | inr v ↦ simp v (
          ap ok (
            overwrite_three hd md p.body (hl + bl + length md) 0 (omega arith)
            ∙ append-nil (hd ++ whole)))
      | inl v ↦
          let cut : whole ++ zeros 24 ≡ take bl whole ++ (drop bl whole ++ zeros 24) =
            ap (λ (bytes : List ℕ). bytes ++ zeros 24) (sym (take-append-drop bl whole))
            ∙ append_assoc (take bl whole) (drop bl whole) (zeros 24) in
          let filled =
            overwrite_three hd md p.body (hl + bl + length md + 8 + 16) 24 (omega arith)
            ∙ append_assoc hd whole (zeros 24)
            ∙ ap (λ (bytes : List ℕ). hd ++ bytes) cut
            ∙ sym (append_assoc hd (take bl whole) (drop bl whole ++ zeros 24)) in
          simp v (
            ap
              (λ (bytes : List ℕ).
                write_at bytes (hl + bl) (put_uint64 p.metadata.nonce) >>= λ bytes.
                ok (overwrite bytes (hl + bl + 8) p.metadata.signature))
              filled
            ∙ signed_over (hd ++ take bl whole) (drop bl whole ++ zeros 24)
                (put_uint64 p.metadata.nonce) p.metadata.signature (hl + bl) refl
                (omega (arith, length-append (drop bl whole) (zeros 24), length-zeros 24))
                (omega (
                  arith,
                  length-append hd (take bl whole),
                  length-take bl whole,
                  length-append md p.body,
                ))
            ∙ ap ok (append_assoc hd (take bl whole) _))
    ]

length-encode :
    (h : HeaderV2) → is_unknown_packet h.base ≡ false → length (encode h) ≡ frame_header_len h
unfolding is_unknown_packet encode ids frame_header_len
length-encode h known = ground arith

header_v2-lengths :
    (pooled : HeaderV2) (p : Packet)
    → with_lengths (header_from_metadata pooled p.metadata) (length (block p)) (length p.body)
      ≡ header_v2 p
unfolding header_from_metadata header_v2 header_of Pool.header_from_metadata
header_v2-lengths pooled p = refl

packed :
    (p : Packet)
    → length p.body ≤ max_body_length
    → IsWordMetadata p.metadata
    → (Header.pack (header_v2 p) >>= λ hd. fill p (block p) hd (frame_header_len (header_v2 p))) ≡ (
        if is_unknown_packet (header_of p.metadata (length p.body))
        then err unknown_packet
        else ok (frame p))
unfolding header_v2
packed p le w =
    let h = header_of p.metadata (length p.body) in
    let word = header_of-IsWord p.metadata (length p.body) w (omega arith) in
    let le' : h.body_length ≤ max_body_length = (unfold header_of in le) in
    let written = pack_header_lem (header_v2 p) word in
    elim (Bool-cases (is_unknown_packet h)) [
      | inl e ↦ rw (written, e) refl
      | inr known ↦
          rw (written, known, le→ltb _ _ le')
            (unfold frame in
              fill_lem p (encode (header_v2 p)) (frame_header_len (header_v2 p))
                (length-encode (header_v2 p) known))
    ]

-- `Pack` of version 2 from the length check on: a body longer than 24 bits can tell is refused, then
-- a type that is none of the three; any other packet becomes its frame.
pub pack_frame_v2_lem :
    (pooled : HeaderV2) (p : Packet)
    → IsWordMetadata p.metadata
    → pack_frame pooled p ≡ (
        if ltb max_body_length (length p.body)
        then err body_len_hit_limit
        else if is_unknown_packet (header_of p.metadata (length p.body))
        then err unknown_packet
        else ok (frame p))
unfolding pack_frame
pack_frame_v2_lem pooled p w = elim (Bool-cases (ltb max_body_length (length p.body))) [
  | inl long ↦ rw long refl
  | inr short ↦
      let le = ltb→le max_body_length (length p.body) short in
      let fits : length p.body % 2 ^ 32 ≡ length p.body = omega arith in
      let fits' : length (block p) % 2 ^ 16 ≡ length (block p) =
        omega (arith, length-marshal_values p.metadata max_metadata_length) in
      rw (short, fits, fits', header_v2-lengths pooled p) (packed p le w)
]
