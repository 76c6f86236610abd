-- ===== src/V1/Packet/Received.antt =====
-- What the receiver's header, made of the sent one, makes of the bytes behind a header.
use openapi_protocol.Base.{
  ℕ, ◌+◌, ◌-◌, ◌%◌, ◌^◌, ◌≤◌, ◌<◌, ◌≡◌, refl, sym, ap, ◌∙◌, arith, List, [], ◌++◌, append-nil,
  append_assoc, length, length-append, take_all, take-append, drop, drop-append, true, false, ◌==◌,
  if◌then◌else◌, Bool-cases, inl, inr, none,
}
use openapi_protocol.Base.Bytes.{put_uint64, uint-put_uint64}
use openapi_protocol.Base.Bits.{and_255}
use openapi_protocol.Metadata.{Metadata, request, response}
use openapi_protocol.V1.Header.{is_unknown_packet}
use openapi_protocol.V1.Header.RoundTrip.{wire}
use openapi_protocol.V1.Header.StreamTrip.{received}
use openapi_protocol.V1.Header.Pool.{header_from_metadata, metadata}
use openapi_protocol.V1.Packet.Layout.{IsWordMetadata, header_of, signature_of}
use openapi_protocol.V1.Stream.{need}
use openapi_protocol.V1.Stream.Step.{signed}

-- What the receiver gets of the metadata: the command cut to a byte, the fields that a packet of
-- this type carries, the codec of the receiver's context, and no values.
unfoldable pub delivered : Metadata → ℕ → Metadata
delivered md codec = record md {
  nonce = if md.verify then md.nonce else 0;
  request_id = elim md.type [ request ↦ md.request_id | response ↦ md.request_id | _ ↦ 0 ];
  cmd_code = md.cmd_code % 2 ^ 8;
  timeout = elim md.type [ request ↦ md.timeout | _ ↦ 0 ];
  codec = codec;
  status_code = elim md.type [ response ↦ md.status_code | _ ↦ 0 ];
  signature = if md.verify then md.signature else [];
  values = none;
}

-- What a version 1 packet can carry: fields of their widths, and a signature of 16 bytes where
-- the packet is verified.
pub record IsSendable (md : Metadata) : Type 0 where
  pub word : IsWordMetadata md
  pub nonce_u64 : md.nonce < 2 ^ 64
  pub signature_16 : md.verify ≡ true → length md.signature ≡ 16

pub metadata_received :
    (md : Metadata) (bl codec : ℕ)
    → is_unknown_packet (header_of md bl) ≡ false
    → metadata (received (header_of md bl)) codec
      ≡ record (delivered md codec) { nonce = 0; signature = [] }
unfolding metadata header_of header_from_metadata wire delivered is_unknown_packet
metadata_received md bl codec known = ground (arith, and_255 md.cmd_code)

pub verify_received :
    (md : Metadata) (bl : ℕ) → ((received (header_of md bl)).verify == 1) ≡ md.verify
unfolding header_of header_from_metadata wire
verify_received md bl = ground arith

pub body_received : (md : Metadata) (bl : ℕ) → (received (header_of md bl)).body_length ≡ bl
unfolding header_of wire
body_received md bl = refl

-- In a sendable verified packet the signature is sent as it is.
pub signature_sent :
    (md : Metadata) (rest : List ℕ)
    → md.verify ≡ true
    → IsSendable md
    → signature_of md ++ rest ≡ put_uint64 md.nonce ++ (md.signature ++ rest)
unfolding signature_of
signature_sent md rest v s =
    let e = s.signature_16 v in
    let none_left : 16 - length md.signature ≡ 0 = omega arith in
    simp v (rw (take_all 16 md.signature (omega arith), none_left, append-nil) refl)

pub signature_none :
    (md : Metadata) (rest : List ℕ) → md.verify ≡ false → signature_of md ++ rest ≡ rest
unfolding signature_of
signature_none md rest v = simp v

pub signed-received :
    (md : Metadata) (body rest : List ℕ) (codec : ℕ)
    → is_unknown_packet (header_of md (length body)) ≡ false
    → IsSendable md
    → signed (received (header_of md (length body))) codec (body ++ (signature_of md ++ rest))
      ≡ delivered md codec
unfolding signed
signed-received md body rest codec known s =
    let m = metadata_received md (length body) codec known in
    elim (Bool-cases md.verify) [
      | inr v ↦ rw (verify_received md (length body) ∙ v, m) (unfold delivered in simp v)
      | inl v ↦
          rw
            (
              verify_received md (length body) ∙ v,
              m,
              body_received md (length body),
              drop-append (length body) body (signature_of md ++ rest) refl,
              signature_sent md rest v s,
              uint-put_uint64 md.nonce s.nonce_u64,
              take-append 16 md.signature rest (s.signature_16 v),
            )
            (unfold delivered in simp v)
    ]

behind_three :
    (body nonce sig rest : List ℕ)
    → length nonce ≡ 8
    → length sig ≡ 16
    → (length body + 8 + 16 ≤ length (body ++ (nonce ++ (sig ++ rest))))
      × (drop (length body + 8 + 16) (body ++ (nonce ++ (sig ++ rest))) ≡ rest)
behind_three body nonce sig rest e e' =
    let whole : (body ++ (nonce ++ sig)) ++ rest ≡ body ++ (nonce ++ (sig ++ rest)) =
      append_assoc body (nonce ++ sig) rest ∙ ap (◌++◌ body) (append_assoc nonce sig rest) in
    let len : length (body ++ (nonce ++ sig)) ≡ length body + 8 + 16 =
      omega (arith, length-append body (nonce ++ sig), length-append nonce sig) in
    rw (sym whole) (
      omega (arith, len, length-append (body ++ (nonce ++ sig)) rest),
      drop-append (length body + 8 + 16) (body ++ (nonce ++ sig)) rest len,
    )

pub need-received :
    (md : Metadata) (body rest : List ℕ)
    → IsSendable md
    → (need (received (header_of md (length body))) ≤ length (body ++ (signature_of md ++ rest)))
      × (drop (need (received (header_of md (length body)))) (body ++ (signature_of md ++ rest))
          ≡ rest)
unfolding need
need-received md body rest s = elim (Bool-cases md.verify) [
  | inr v ↦
      rw
        (
          verify_received md (length body) ∙ v,
          body_received md (length body),
          signature_none md rest v,
          drop-append (length body) body rest refl,
        )
        (omega (arith, length-append body rest), refl)
  | inl v ↦
      rw
        (
          verify_received md (length body) ∙ v,
          body_received md (length body),
          signature_sent md rest v s,
        )
        (behind_three body (put_uint64 md.nonce) md.signature rest refl (s.signature_16 v))
]
