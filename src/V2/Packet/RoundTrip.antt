-- ===== src/V2/Packet/RoundTrip.antt =====
-- A packet that `Pack` of version 2 turns into bytes comes back from these bytes, where it is not
-- both verified and with metadata.
use openapi_protocol.Base.{
  ℕ, ◌+◌, ◌-◌, ◌≤◌, ◌≡◌, refl, sym, ap, ◌∙◌, arith, List, [], ◌++◌, append-nil, append_assoc,
  length, length-append, take, take_all, take-append, drop, drop-append, drop_all, drop-drop, true,
  false, le→ltb, if◌then◌else◌, Bool-cases, inl, inr, none, some,
}
use openapi_protocol.Base.Result.{ok}
use openapi_protocol.Base.Bytes.{put_uint64, uint-put_uint64}
use openapi_protocol.Base.Copies.{zeros}
use openapi_protocol.Gzip.{Library}
use openapi_protocol.Metadata.{Metadata}
use openapi_protocol.Metadata.Values.{marshal_values, unmarshal_values}
use openapi_protocol.Metadata.Values.Kept.{entries, kept}
use openapi_protocol.Metadata.Values.RoundTrip.{Lowered, Distinct, unmarshal-marshal}
use openapi_protocol.Packet.{Packet}
use openapi_protocol.V1.Header.{is_unknown_packet}
use openapi_protocol.V1.Header.Pool.{metadata}
use openapi_protocol.V1.Header.RoundTrip.{wire}
use openapi_protocol.V1.Header.StreamTrip.{received}
use openapi_protocol.V1.Packet.{decompress_body}
use openapi_protocol.V1.Packet.Layout.{header_of, signature_of}
use openapi_protocol.V1.Packet.Received.{
  IsSendable, delivered, metadata_received, verify_received, body_received, signature_sent,
}
use openapi_protocol.V1.Stream.Signature.{sign, signed_length}
use openapi_protocol.V1.Stream.Step.{report_of}
use openapi_protocol.V2.Header.StreamTrip.{received_v2}
use openapi_protocol.V2.Packet.{max_metadata_length}
use openapi_protocol.V2.Packet.Layout.{block, header_v2, behind_header}
use openapi_protocol.V2.Stream.{need}
use openapi_protocol.V2.Stream.Refines.{need-parts}
use openapi_protocol.V2.Stream.Step.{decoded, body_step}

-- What the receiver gets of the metadata: as in version 1, and the pairs that were sent.
unfoldable pub delivered_v2 : Metadata → ℕ → Metadata
delivered_v2 md codec = record (delivered md codec) {
  values = some (kept max_metadata_length 0 (entries md));
}

over_nothing :
    (body nonce sig : List ℕ)
    → length sig ≡ 16
    → let over = drop (length body) body ++ zeros 24 in
      take (length body) body
        ++ (nonce ++ (take (length over - 8) sig ++ drop (length sig) (drop 8 over)))
      ≡ body ++ (nonce ++ (take 16 sig ++ zeros (16 - length sig)))
over_nothing body nonce sig e =
    rw (take_all (length body) body (omega arith), drop_all body, e) refl

-- The nonce and the signature stand behind the body, if there is no metadata in front of it.
pub behind-plain :
    (p : Packet)
    → IsSendable p.metadata
    → (p.metadata.verify ≡ true → block p ≡ [])
    → behind_header p ≡ block p ++ (p.body ++ signature_of p.metadata)
unfolding behind_header signature_of
behind-plain p s plain = elim (Bool-cases p.metadata.verify) [
  | inr v ↦ simp v (ap (λ (bytes : List ℕ). block p ++ bytes) (sym (append-nil p.body)))
  | inl v ↦
      simp (v, plain v)
        (over_nothing p.body (put_uint64 p.metadata.nonce) p.metadata.signature (s.signature_16 v))
]

sign-received :
    (md to : Metadata) (bl : ℕ) (rest : List ℕ)
    → IsSendable md
    → sign
        (received (header_of md bl))
        (record to { nonce = 0; signature = [] })
        (signature_of md ++ rest)
      ≡ record to {
        nonce = if md.verify then md.nonce else 0;
        signature = if md.verify then md.signature else [];
      }
unfolding sign
sign-received md to bl rest s = elim (Bool-cases md.verify) [
  | inr v ↦ rw (verify_received md bl ∙ v) (simp v)
  | inl v ↦
      rw
        (
          verify_received md bl ∙ v,
          signature_sent md rest v s,
          uint-put_uint64 md.nonce s.nonce_u64,
          take-append 16 md.signature rest (s.signature_16 v),
        )
        (simp v)
]

length_sent :
    (md : Metadata)
    → length md.signature ≡ 16
    → 24
      ≡ length (put_uint64 md.nonce ++ (take 16 md.signature ++ zeros (16 - length md.signature)))
length_sent md e =
    let none_left : 16 - length md.signature ≡ 0 = omega arith in
    rw (none_left, append-nil, take_all 16 md.signature (omega arith), e) refl

signed_length-received :
    (md : Metadata) (bl : ℕ)
    → IsSendable md
    → signed_length (received (header_of md bl)) ≡ length (signature_of md)
unfolding signed_length signature_of
signed_length-received md bl s = elim (Bool-cases md.verify) [
  | inr v ↦ rw (verify_received md bl ∙ v) (simp v)
  | inl v ↦ rw (verify_received md bl ∙ v) (simp v (length_sent md (s.signature_16 v)))
]

-- The parts of the bytes behind the header, from what the header says of their lengths.
parts :
    (md body sig rest : List ℕ)
    → let bytes = md ++ (body ++ (sig ++ rest)) in
      (take (length md) bytes ≡ md)
      × (take (length body) (drop (length md) bytes) ≡ body)
      × (drop (length md + length body) bytes ≡ sig ++ rest)
      × (drop (length md + length body + length sig) bytes ≡ rest)
      × (length md + length body + length sig ≤ length bytes)
parts md body sig rest =
    let behind = drop-append (length md) md (body ++ (sig ++ rest)) refl in
    let after : drop (length md + length body) (md ++ (body ++ (sig ++ rest))) ≡ sig ++ rest =
      sym (drop-drop (length body) (length md) (md ++ (body ++ (sig ++ rest))))
      ∙ ap (drop (length body)) behind
      ∙ drop-append (length body) body (sig ++ rest) refl in
    (
      take-append (length md) md (body ++ (sig ++ rest)) refl,
      ap (take (length body)) behind ∙ take-append (length body) body (sig ++ rest) refl,
      after,
      sym (drop-drop (length sig) (length md + length body) (md ++ (body ++ (sig ++ rest))))
          ∙ ap (drop (length sig)) after
          ∙ drop-append (length sig) sig rest refl,
      omega (
        arith,
        length-append md (body ++ (sig ++ rest)),
        length-append body (sig ++ rest),
        length-append sig rest,
      ),
    )

module _ (lower : List ℕ → List ℕ) (lib : Library) (codec : ℕ) where
  pub unmarshal-received :
      (md : Metadata) (bl : ℕ)
      → is_unknown_packet (header_of md bl) ≡ false
      → Lowered lower (entries md)
      → Distinct (entries md)
      → unmarshal_values lower
          (metadata (received (header_of md bl)) codec)
          (marshal_values md max_metadata_length)
        ≡ ok (record (delivered_v2 md codec) { nonce = 0; signature = [] })
  unfolding delivered_v2
  unmarshal-received md bl known l d =
      unmarshal-marshal lower md _ max_metadata_length l d
      ∙ ap
          (λ (to : Metadata).
            ok (record to { values = some (kept max_metadata_length 0 (entries md)) }))
          (metadata_received md bl codec known)

  pub body_step-frame :
      (p : Packet) (rest : List ℕ)
      → is_unknown_packet (header_of p.metadata (length p.body)) ≡ false
      → IsSendable p.metadata
      → (p.metadata.verify ≡ true → block p ≡ [])
      → Lowered lower (entries p.metadata)
      → Distinct (entries p.metadata)
      → body_step lower lib codec (received_v2 (header_v2 p)) (behind_header p ++ rest) ≡ (
        none,
        rest,
        report_of
            (delivered_v2 p.metadata codec)
            (decompress_body lib (received (header_of p.metadata (length p.body))) p.body),
      )
  unfolding body_step decoded header_v2 report_of decompress_body wire header_of
  body_step-frame p rest known s plain l d =
      let md = p.metadata in
      let bl = length p.body in
      let sig = signature_of md in
      let h = received_v2 (header_v2 p) in
      let t = parts (block p) p.body sig rest in
      let bytes : behind_header p ++ rest ≡ block p ++ (p.body ++ (sig ++ rest)) =
        ap (λ (xs : List ℕ). xs ++ rest) (behind-plain p s plain)
        ∙ append_assoc (block p) (p.body ++ sig) rest
        ∙ ap (λ (xs : List ℕ). block p ++ xs) (append_assoc p.body sig rest) in
      let needed : need h ≡ length (block p) + bl + length sig =
        need-parts h ∙ rw (signed_length-received md bl s, body_received md bl) refl in
      rw (bytes, needed, le→ltb _ _ t.4, t.0, unmarshal-received md bl known l d)
        (rw
          (
            needed,
            body_received md bl,
            t.1,
            t.2,
            t.3,
            sign-received md (delivered_v2 md codec) bl rest s,
          )
          (unfold delivered_v2 delivered in refl))
