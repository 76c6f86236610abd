-- ===== src/V1/Header/Absorb.antt =====
-- `Header.Unpack` as a function of the bytes that the buffer holds, and that the buffered code
-- computes it whatever the ring buffer is.
use openapi_protocol.Base.{
  ℕ, ◌≤◌, ◌≡◌, refl, arith, List, [], ◌∷◌, ◌++◌, length, drop, true, false, ltb, ltb→le, ◌==◌,
  if◌then◌else◌, Bool-cases, inl, inr,
}
use openapi_protocol.Base.Result.{Result, ok, Progress, waiting, done, failed, unknown_packet}
use openapi_protocol.RingBuffer.{RingBuffer}
use openapi_protocol.RingBuffer.Reads.{read_uint8, read_uint16, read_uint32, read_three}
use openapi_protocol.V1.Header.{
  Header, is_unknown_packet, remain_len, set_first_byte, request_packet, response_packet,
  push_packet,
}
use openapi_protocol.V1.Header.Fields.{fields}
use openapi_protocol.V1.Header.Buffered.{three_bytes, take_fields, unpack_rest, unpack}

unfoldable pub absorb_rest : Header → List ℕ → Header × List ℕ × Progress
absorb_rest h bytes =
    if is_unknown_packet h
    then (h, bytes, failed unknown_packet)
    else if ltb (length bytes) (remain_len h)
    then (h, bytes, waiting)
    else (fields (record h { is_unpacked = true }) bytes, drop (remain_len h) bytes, done)

unfoldable pub absorb : Header → List ℕ → Header × List ℕ × Progress
absorb h [] = (h, [], waiting)
absorb h (b ∷ bytes) =
    if h.is_unpacked
    then (h, b ∷ bytes, done)
    else if h.begin_unpack
    then absorb_rest h (b ∷ bytes)
    else absorb_rest (record (set_first_byte b h) { begin_unpack = true }) bytes

pub three_bytes_lem :
    (f e : List ℕ) (x y z : ℕ) → f ++ e ≡ x ∷ y ∷ z ∷ [] → three_bytes f e ≡ ok (x, y, z)
unfolding three_bytes
three_bytes_lem [] e x y z h = rw h
three_bytes_lem (a ∷ []) e x y z h = ground arith
three_bytes_lem (a ∷ b ∷ []) e x y z h = ground arith
three_bytes_lem (a ∷ b ∷ c ∷ f) e x y z h = ground arith

module _ (rb : RingBuffer) where
  open rb use {Buf, contents, buf_length, retrieve, peek, length_law}

  -- The code ends with the given header, report and bytes left.
  abbrev pub Ends : Result (Header × Buf × Progress) → Header × List ℕ × Progress → Type 0
  Ends r s = (b : Buf) × (r ≡ ok (s.0, b, s.2)) × (contents b ≡ s.1)

  abbrev Takes : Header → Buf → List ℕ → ℕ → Type 0
  Takes h b bytes n =
      (b' : Buf) × (take_fields rb h b ≡ ok (fields h bytes, b')) × (contents b' ≡ drop n bytes)

  take_request :
      (h : Header) (b : Buf) (bytes : List ℕ)
      → h.type ≡ request_packet
      → 10 ≤ length bytes
      → contents b ≡ bytes
      → Takes h b bytes 10
  unfolding take_fields fields
  take_request h b (c ∷ i0 ∷ i1 ∷ i2 ∷ i3 ∷ t0 ∷ t1 ∷ l0 ∷ l1 ∷ l2 ∷ rest) e le held =
      let b1 = retrieve 1 b in
      let b2 = retrieve 4 b1 in
      let b3 = retrieve 2 b2 in
      let r1 = read_uint8 rb b c _ held in
      let r2 = read_uint32 rb b1 i0 i1 i2 i3 _ r1.1 in
      let r3 = read_uint16 rb b2 t0 t1 _ r2.1 in
      let r4 = read_three rb b3 l0 l1 l2 _ r3.1 in
      (retrieve 3 b3, rw (e, three_bytes_lem _ _ l0 l1 l2 r4.0, r1.0, r2.0, r3.0), r4.1)
  take_request h b bytes e le held = absurd (omega arith)

  take_response :
      (h : Header) (b : Buf) (bytes : List ℕ)
      → h.type ≡ response_packet
      → 9 ≤ length bytes
      → contents b ≡ bytes
      → Takes h b bytes 9
  unfolding take_fields fields
  take_response h b (c ∷ i0 ∷ i1 ∷ i2 ∷ i3 ∷ s ∷ l0 ∷ l1 ∷ l2 ∷ rest) e le held =
      let b1 = retrieve 1 b in
      let b2 = retrieve 4 b1 in
      let b3 = retrieve 1 b2 in
      let r1 = read_uint8 rb b c _ held in
      let r2 = read_uint32 rb b1 i0 i1 i2 i3 _ r1.1 in
      let r3 = read_uint8 rb b2 s _ r2.1 in
      let r4 = read_three rb b3 l0 l1 l2 _ r3.1 in
      (retrieve 3 b3, rw (e, three_bytes_lem _ _ l0 l1 l2 r4.0, r1.0, r2.0, r3.0), r4.1)
  take_response h b bytes e le held = absurd (omega arith)

  take_push :
      (h : Header) (b : Buf) (bytes : List ℕ)
      → h.type ≡ push_packet
      → 4 ≤ length bytes
      → contents b ≡ bytes
      → Takes h b bytes 4
  unfolding take_fields fields
  take_push h b (c ∷ l0 ∷ l1 ∷ l2 ∷ rest) e le held =
      let b1 = retrieve 1 b in
      let r1 = read_uint8 rb b c _ held in
      let r2 = read_three rb b1 l0 l1 l2 _ r1.1 in
      (retrieve 3 b1, rw (e, three_bytes_lem _ _ l0 l1 l2 r2.0, r1.0), r2.1)
  take_push h b bytes e le held = absurd (omega arith)

  take_known :
      (h : Header) (b : Buf)
      → is_unknown_packet h ≡ false
      → remain_len h ≤ length (contents b)
      → Takes h b (contents b) (remain_len h)
  unfolding is_unknown_packet remain_len
  take_known h b known le = elim (Bool-cases (h.type == request_packet)) [
    | inl e ↦ rw e (take_request h b _ (ground arith) (ground arith) refl)
    | inr ne ↦ elim (Bool-cases (h.type == response_packet)) [
      | inl e ↦ rw (ne, e) (take_response h b _ (ground arith) (ground arith) refl)
      | inr ne' ↦ rw (ne, ne') (take_push h b _ (ground arith) (ground arith) refl)
    ]
  ]

  unpack_rest_lem : (h : Header) (b : Buf) → Ends (unpack_rest rb h b) (absorb_rest h (contents b))
  unfolding unpack_rest absorb_rest is_unknown_packet remain_len
  unpack_rest_lem h b = elim (Bool-cases (is_unknown_packet h)) [
    | inl e ↦ rw e (b, refl, refl)
    | inr known ↦ elim (Bool-cases (ltb (length (contents b)) (remain_len h))) [
      | inl short ↦ rw (known, length_law b, short) (b, refl, refl)
      | inr enough ↦
          let t = take_known (record h { is_unpacked = true }) b known (ltb→le _ _ enough) in
          rw (known, length_law b, enough) (t.0, rw t.1, t.2)
    ]
  ]

  -- On every ring buffer `Header.Unpack` does what `absorb` does on the bytes that it holds.
  pub unpack-absorb :
      (h : Header) (b : Buf) (bytes : List ℕ)
      → contents b ≡ bytes
      → Ends (unpack rb h b) (absorb h bytes)
  unfolding unpack absorb
  unpack-absorb h b [] held = (b, ground (arith, length_law b), held)
  unpack-absorb h b (x ∷ bytes) held =
      let first = read_uint8 rb b x bytes held in
      let fresh = record (set_first_byte x h) { begin_unpack = true } in
      let later : Ends (unpack_rest rb h b) (absorb_rest h (x ∷ bytes)) =
        rw held at (unpack_rest_lem h b) in
      let now : Ends (unpack_rest rb fresh (retrieve 1 b)) (absorb_rest fresh bytes) =
        rw first.1 at (unpack_rest_lem fresh (retrieve 1 b)) in
      elim (Bool-cases h.is_unpacked) [
        | inl e ↦ simp e (b, ground (arith, length_law b), held)
        | inr more ↦ elim (Bool-cases h.begin_unpack) [
          | inl e ↦ simp (more, e) (later.0, ground (arith, length_law b), later.2)
          | inr e ↦ simp (more, e) (now.0, ground (arith, length_law b), now.2)
        ]
      ]
