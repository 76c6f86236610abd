-- ===== src/V1/Packet/Layout.antt =====
-- The binary form of a packet, and that `Pack` writes it.
use openapi_protocol.Base.{
  ℕ, ◌+◌, ◌-◌, ◌%◌, ◌^◌, ◌≤◌, ◌<◌, ◌≡◌, refl, ap, ◌∙◌, arith, List, [], ◌++◌, append_assoc, length,
  length-append, take, false, ltb, ltb→le, if◌then◌else◌, Bool-cases, inl, inr,
}
use openapi_protocol.Base.Result.{
  ok, err, body_len_hit_limit, unknown_packet, overwrite, write_at, ◌>>=◌,
}
use openapi_protocol.Base.Bytes.{put_uint64}
use openapi_protocol.Base.Bits.{and_255}
use openapi_protocol.Base.Copies.{zeros, overwrite_two, signed_fill}
use openapi_protocol.Metadata.{Metadata, PacketType, request, response, push, other}
use openapi_protocol.Packet.{Packet}
use openapi_protocol.V1.Header
use openapi_protocol.V1.Header.{
  Header, IsWord, empty, max_body_length, is_unknown_packet, length_of, request_packet,
  response_packet, push_packet, request_header_len, response_header_len, push_header_len,
}
use openapi_protocol.V1.Header.Layout.{encode, pack_lem}
use openapi_protocol.V1.Header.RoundTrip.{pack-encode}
use openapi_protocol.V1.Header.Pool.{header_from_metadata, type_number}
use openapi_protocol.V1.Packet.{fill, frame_header_len, pack_frame}

-- The widths of the fields that a header takes.
pub record IsWordMetadata (md : Metadata) : Type 0 where
  pub request_id_u32 : md.request_id < 2 ^ 32
  pub timeout_u16 : md.timeout < 2 ^ 16
  pub status_code_u8 : md.status_code < 2 ^ 8

-- The header of a packet with this metadata and this length of its body.
unfoldable pub header_of : Metadata → ℕ → Header
header_of md bl = record (header_from_metadata empty md) { body_length = bl }

-- What stands behind the body: in a verified packet the nonce, and the signature cut or filled up
-- with zeros to 16 bytes.
unfoldable pub signature_of : Metadata → List ℕ
signature_of md =
    if md.verify
    then put_uint64 md.nonce ++ (take 16 md.signature ++ zeros (16 - length md.signature))
    else []

unfoldable pub frame : Packet → List ℕ
frame p = encode (header_of p.metadata (length p.body)) ++ (p.body ++ signature_of p.metadata)

type_number-lt : (t : PacketType) → type_number t 0 < 2 ^ 8
type_number-lt request = omega arith
type_number-lt response = omega arith
type_number-lt push = omega arith
type_number-lt other = omega arith

pub header_of-IsWord :
    (md : Metadata) (bl : ℕ) → IsWordMetadata md → bl < 2 ^ 32 → IsWord (header_of md bl)
unfolding header_of header_from_metadata
header_of-IsWord md bl w h = record {
  request_id_u32 = w.request_id_u32;
  body_length_u32 = h;
  timeout_u16 = w.timeout_u16;
  type_u8 = type_number-lt md.type;
  verify_u8 = ground arith;
  gzip_u8 = ground arith;
  reserve_u8 = omega arith;
  cmd_code_u8 = omega (arith, and_255 md.cmd_code);
  status_code_u8 = w.status_code_u8;
}

fill_lem :
    (p : Packet) (hd : List ℕ) (hl : ℕ)
    → length hd ≡ hl
    → fill p hd hl ≡ ok (hd ++ (p.body ++ signature_of p.metadata))
unfolding fill signature_of
fill_lem p hd hl e = elim (Bool-cases p.metadata.verify) [
  | inr v ↦ simp v (
      ap ok
        (overwrite_two hd p.body (hl + length p.body) 0 (omega arith) ∙ append_assoc hd p.body []))
  | inl v ↦ simp v (
      ap
        (λ (bytes : List ℕ).
          write_at bytes (hl + length p.body) (put_uint64 p.metadata.nonce) >>= λ bytes.
          ok (overwrite bytes (hl + length p.body + 8) p.metadata.signature))
        (overwrite_two hd p.body (hl + length p.body + 8 + 16) 24 (omega arith))
      ∙ signed_fill (hd ++ p.body) (put_uint64 p.metadata.nonce) p.metadata.signature
          (hl + length p.body) refl (omega (arith, length-append hd p.body))
      ∙ ap ok (append_assoc hd p.body _))
]

header_of-pooled :
    (pooled : Header) (md : Metadata) (bl : ℕ)
    → record (header_from_metadata pooled md) { body_length = bl } ≡ header_of md bl
unfolding header_of header_from_metadata
header_of-pooled pooled md bl = refl

length-encode : (h : Header) → is_unknown_packet h ≡ false → length (encode h) ≡ frame_header_len h
unfolding is_unknown_packet encode frame_header_len
length-encode h known = ground arith

packed :
    (p : Packet)
    → length p.body ≤ max_body_length
    → IsWordMetadata p.metadata
    → let h = header_of p.metadata (length p.body) in
      (Header.pack h >>= λ hd. fill p hd (frame_header_len h))
      ≡ (if is_unknown_packet h then err unknown_packet else ok (frame p))
packed p le w =
    let h = header_of p.metadata (length p.body) in
    let word = header_of-IsWord p.metadata (length p.body) w (omega arith) in
    elim (Bool-cases (is_unknown_packet h)) [
      | inl e ↦ rw (pack_lem h word, e) refl
      | inr known ↦
          rw (pack-encode h word known (unfold header_of in le), known)
            (unfold frame in fill_lem p (encode h) (frame_header_len h) (length-encode h known))
    ]

-- `Pack` from the length check on: a body longer than 24 bits can tell is refused, then a type
-- that is none of the three; any other packet becomes its frame.
pub pack_frame_lem :
    (pooled : Header) (p : Packet)
    → IsWordMetadata p.metadata
    → pack_frame pooled p ≡ (
        if ltb max_body_length (length p.body)
        then err body_len_hit_limit
        else if is_unknown_packet (header_of p.metadata (length p.body))
        then err unknown_packet
        else ok (frame p))
unfolding pack_frame
pack_frame_lem pooled p w = elim (Bool-cases (ltb max_body_length (length p.body))) [
  | inl long ↦ rw long refl
  | inr short ↦
      let le = ltb→le max_body_length (length p.body) short in
      let fits : length p.body % 2 ^ 32 ≡ length p.body = omega arith in
      let h = header_of p.metadata (length p.body) in
      rw (short, fits, header_of-pooled pooled p.metadata (length p.body)) (packed p le w)
]
