-- ===== src/V2/Packet/Overwritten.antt =====
-- A verified packet with metadata does not survive version 2: the nonce and the signature are written
-- at the place where the body would end if there were no metadata.
use openapi_protocol.Base.{
  ℕ, ◌+◌, ◌-◌, ◌≤◌, ◌≡◌, refl, sym, ap, ◌∙◌, arith, List, ◌++◌, length, length-append, length-drop,
  length-take, take, take_all, drop, get_elem?, get_elem?-append_right, get_elem?-append_left,
  get_elem?-drop, get_elem?-take, true, le→ltb, ◌==◌, Option, none, some,
}
use openapi_protocol.Base.Result.{Result, ok, err, panic}
use openapi_protocol.Base.Bytes.{put_uint64}
use openapi_protocol.Base.Copies.{zeros}
use openapi_protocol.Gzip.{Library}
use openapi_protocol.Metadata.{Metadata}
use openapi_protocol.Metadata.Values.{unmarshal_values}
use openapi_protocol.Packet.{Packet, complete}
use openapi_protocol.V1.Header.{Header}
use openapi_protocol.V1.Header.Pool.{metadata}
use openapi_protocol.V1.Packet.Received.{IsSendable, verify_received, body_received}
use openapi_protocol.V1.Stream.Signature.{sign, signed_length}
use openapi_protocol.V1.Stream.Step.{report_of}
use openapi_protocol.V2.Header.{HeaderV2}
use openapi_protocol.V2.Header.StreamTrip.{received_v2}
use openapi_protocol.V2.Packet.{pack_frame}
use openapi_protocol.V2.Packet.Layout.{block, header_v2, behind_header}
use openapi_protocol.V2.Packet.Delivery.{frame_unless, step-frame}
use openapi_protocol.V2.Stream.{need}
use openapi_protocol.V2.Stream.Refines.{need-parts}
use openapi_protocol.V2.Stream.Step.{decoded, body_step, step}

-- What is left of the bytes that a nonce and a signature are written over, behind these.
abbrev written : List ℕ → List ℕ → List ℕ → List ℕ → List ℕ
written front nonce sig over =
    front ++ (nonce ++ (take (length over - 8) sig ++ drop (length sig) (drop 8 over)))

module _ (front nonce sig over : List ℕ) (n m : ℕ) (e : length front ≡ n) (e8 : length nonce ≡ 8)
    (e16 : length sig ≡ 16) (room : length over ≡ m + 24) where
  uncut : take (length over - 8) sig ≡ sig
  uncut = take_all (length over - 8) sig (omega arith)

  length-written : length (written front nonce sig over) ≡ m + n + 24
  length-written = rw uncut (
      omega (
        arith,
        length-append front (nonce ++ (sig ++ drop (length sig) (drop 8 over))),
        length-append nonce (sig ++ drop (length sig) (drop 8 over)),
        length-append sig (drop (length sig) (drop 8 over)),
        length-drop (length sig) (drop 8 over),
        length-drop 8 over,
      ))

  -- If any bytes are left, the last one is that of `over`.
  written-last :
      1 ≤ m → get_elem? (written front nonce sig over) (m + n + 23) ≡ get_elem? over (m + 23)
  written-last pos =
      let left = drop (length sig) (drop 8 over) in
      rw uncut (
        get_elem?-append_right front (nonce ++ (sig ++ left)) (m + 23) (m + n + 23) (omega arith)
        ∙ get_elem?-append_right nonce (sig ++ left) (m + 15) (m + 23) (omega arith)
        ∙ get_elem?-append_right sig left (m - 1) (m + 15) (omega arith)
        ∙ get_elem?-drop (length sig) (drop 8 over) (m - 1) (m + 15) (omega arith)
        ∙ get_elem?-drop 8 over (m + 15) (m + 23) (omega arith))

-- In a verified packet with metadata, the last byte of the frame is zero.
behind-last :
    (p : Packet)
    → IsSendable p.metadata
    → p.metadata.verify ≡ true
    → 1 ≤ length (block p)
    → let n = length (block p) + length p.body in
      (get_elem? (behind_header p) (n + 23) ≡ some 0) × (length (behind_header p) ≡ n + 24)
unfolding behind_header
behind-last p s v pos =
    let bl = length p.body in
    let whole = block p ++ p.body in
    let over = drop bl whole ++ zeros 24 in
    let front = take bl whole in
    let nonce = put_uint64 p.metadata.nonce in
    let all = length-append (block p) p.body in
    let e : length front ≡ bl = omega (arith, length-take bl whole) in
    let left : length (drop bl whole) ≡ length (block p) = omega (arith, length-drop bl whole) in
    let room : length over ≡ length (block p) + 24 =
      omega (arith, length-append (drop bl whole) (zeros 24)) in
    simp v (
      written-last front nonce p.metadata.signature over bl (length (block p)) e refl
            (s.signature_16 v) room pos
          ∙ get_elem?-append_right (drop bl whole) (zeros 24) 23 (length (block p) + 23)
              (omega arith),
      length-written front nonce p.metadata.signature over bl (length (block p)) e refl
          (s.signature_16 v) room,
    )

report-complete :
    (md : Metadata) (r : Result (List ℕ)) (q : Packet)
    → report_of md r ≡ complete q
    → q.metadata ≡ md
unfolding report_of
report-complete md (ok out) q e = cc
report-complete md (err f) q e = cc
report-complete md panic q e = cc

sign-last :
    (h : Header) (md : Metadata) (bytes : List ℕ)
    → (h.verify == 1) ≡ true
    → get_elem? (sign h md bytes).signature 15 ≡ get_elem? bytes 23
unfolding sign
sign-last h md bytes v =
    rw v (
      get_elem?-take 16 (drop 8 bytes) 15 (omega arith)
      ∙ get_elem?-drop 8 bytes 15 23 (omega arith))

module _ (lower : List ℕ → List ℕ) (lib : Library) (codec : ℕ) where
  body_step_enough :
      (h : HeaderV2) (bytes : List ℕ)
      → need h ≤ length bytes
      → body_step lower lib codec h bytes
        ≡ decoded lower lib codec h bytes
            (unmarshal_values lower (metadata h.base codec) (take h.metadata_length bytes))
  unfolding body_step
  body_step_enough h bytes le = rw (le→ltb _ _ le)

  decoded-last :
      (h : HeaderV2) (bytes rest : List ℕ) (s : Option HeaderV2) (r : Result Metadata) (q : Packet)
      → (h.base.verify == 1) ≡ true
      → decoded lower lib codec h bytes r ≡ (s, rest, complete q)
      → get_elem? q.metadata.signature 15
        ≡ get_elem? bytes (h.metadata_length + h.base.body_length + 23)
  unfolding decoded
  decoded-last h bytes rest s (ok md) q v e =
      let n = h.metadata_length + h.base.body_length in
      let e' = report-complete _ _ q (ap (λ x. x.2) e) in
      ap (λ (md : Metadata). get_elem? md.signature 15) e'
      ∙ sign-last h.base md (drop n bytes) v
      ∙ get_elem?-drop n bytes 23 (n + 23) refl
  decoded-last h bytes rest s (err f) q v e = ground arith
  decoded-last h bytes rest s panic q v e = ground arith

  -- In a verified packet with a signature of 16 bytes and with metadata, whatever the signature and
  -- whatever follows the packet: if a call of `Unpack` makes a packet of the bytes that `Pack` wrote,
  -- the last byte of its signature is zero.
  pub signature-overwritten :
      (pooled : HeaderV2) (p q : Packet) (bytes rest left : List ℕ) (s : Option HeaderV2)
      → IsSendable p.metadata
      → p.metadata.verify ≡ true
      → 1 ≤ length (block p)
      → pack_frame pooled p ≡ ok bytes
      → step lower lib codec none (bytes ++ rest) ≡ (s, left, complete q)
      → get_elem? q.metadata.signature 15 ≡ some 0
  signature-overwritten pooled p q bytes rest left s sent v pos e d =
      let f = frame_unless pooled p bytes sent.word e in
      let bl = length p.body in
      let h = received_v2 (header_v2 p) in
      let last = behind-last p sent v pos in
      let xs = behind_header p ++ rest in
      let v' : (h.base.verify == 1) ≡ true =
        (unfold header_v2 in verify_received p.metadata bl ∙ v) in
      let bl' : h.base.body_length ≡ bl = (unfold header_v2 in body_received p.metadata bl) in
      let ml' : h.metadata_length ≡ length (block p) = (unfold header_v2 in refl) in
      let n = length (block p) + bl in
      let len : signed_length h.base ≡ 24 = (unfold signed_length in rw v' refl) in
      let enough : need h ≤ length xs =
        omega (arith, need-parts h, length-append (behind_header p) rest) in
      let d' : decoded lower lib codec h xs
            (unmarshal_values lower (metadata h.base codec) (take h.metadata_length xs))
          ≡ (s, left, complete q) =
        sym (body_step_enough h xs enough)
        ∙ sym (step-frame lower lib codec p rest f.0 f.1 sent.word)
        ∙ ap (λ (ys : List ℕ). step lower lib codec none (ys ++ rest)) (sym f.2)
        ∙ d in
      decoded-last h xs left s _ q v' d'
      ∙ ap (get_elem? xs) {x = h.metadata_length + h.base.body_length + 23} {y = n + 23}
          (omega arith)
      ∙ get_elem?-append_left (behind_header p) rest (n + 23) (omega arith)
      ∙ last.0
