-- ===== src/Decoder/Framing/Resumed.antt =====
-- Bytes that arrive later do not change what a header was made of the earlier ones.
use openapi_protocol.Base.{
  ℕ, ◌≤◌, ◌<◌, ◌≡◌, refl, sym, ◌∙◌, arith, List, [], ◌∷◌, ◌++◌, length, length-append, length-drop,
  drop, drop-append_le, true, false, ltb, ltb→lt, ltb→le, lt→ltb, le→ltb, Bool-cases, inl, inr,
}
use openapi_protocol.Base.Result.{Progress, waiting, done, failed, unknown_packet}
use openapi_protocol.Decoder.Framing.{Framing, absorb, absorb_rest}

module _ (f : Framing) where
  open f use {
    Header, is_unpacked, begin_unpack, is_unknown_packet, remain_len, first, complete,
    remain_len-pos, is_unpacked-first, begin_unpack-first, is_unpacked-complete, complete-append,
  }

  -- What a call makes of more bytes, given what it made of the first ones.
  abbrev pub resume : Header × List ℕ × Progress → List ℕ → Header × List ℕ × Progress
  resume (h, rest, waiting) more = absorb f h (rest ++ more)
  resume (h, rest, done) more = (h, rest ++ more, done)
  resume (h, rest, failed e) more = (h, rest ++ more, failed e)

  abbrev resume_rest : Header × List ℕ × Progress → List ℕ → Header × List ℕ × Progress
  resume_rest (h, rest, waiting) more = absorb_rest f h (rest ++ more)
  resume_rest (h, rest, done) more = (h, rest ++ more, done)
  resume_rest (h, rest, failed e) more = (h, rest ++ more, failed e)

  rest_unknown :
      (h : Header) (bytes : List ℕ)
      → is_unknown_packet h ≡ true
      → absorb_rest f h bytes ≡ (h, bytes, failed unknown_packet)
  unfolding absorb_rest
  rest_unknown h bytes e = rw e

  rest_short :
      (h : Header) (bytes : List ℕ)
      → is_unknown_packet h ≡ false
      → length bytes < remain_len h
      → absorb_rest f h bytes ≡ (h, bytes, waiting)
  unfolding absorb_rest
  rest_short h bytes known lt = rw (known, lt→ltb _ _ lt)

  rest_enough :
      (h : Header) (bytes : List ℕ)
      → is_unknown_packet h ≡ false
      → remain_len h ≤ length bytes
      → absorb_rest f h bytes ≡ (complete h bytes, drop (remain_len h) bytes, done)
  unfolding absorb_rest
  rest_enough h bytes known le = rw (known, le→ltb _ _ le)

  absorb_rest-append :
      (h : Header) (bytes more : List ℕ)
      → absorb_rest f h (bytes ++ more) ≡ resume_rest (absorb_rest f h bytes) more
  absorb_rest-append h bytes more = elim (Bool-cases (is_unknown_packet h)) [
    | inl e ↦ rw (rest_unknown h bytes e, rest_unknown h (bytes ++ more) e)
    | inr known ↦ elim (Bool-cases (ltb (length bytes) (remain_len h))) [
      | inl short ↦ rw (rest_short h bytes known (ltb→lt _ _ short))
      | inr enough ↦
          let le = ltb→le (length bytes) (remain_len h) enough in
          rw
            (
              rest_enough h bytes known le,
              rest_enough h (bytes ++ more) known (omega (arith, length-append bytes more)),
              complete-append h bytes more known le,
              drop-append_le (remain_len h) bytes more le,
            )
            refl
    ]
  ]

  absorb_begun :
      (h : Header) (x : ℕ) (bytes : List ℕ)
      → begin_unpack h ≡ true
      → is_unpacked h ≡ false
      → absorb f h (x ∷ bytes) ≡ absorb_rest f h (x ∷ bytes)
  unfolding absorb
  absorb_begun h x bytes b u = simp (u, b)

  absorb_fresh :
      (h : Header) (x : ℕ) (bytes : List ℕ)
      → begin_unpack h ≡ false
      → is_unpacked h ≡ false
      → absorb f h (x ∷ bytes) ≡ absorb_rest f (first x h) bytes
  unfolding absorb
  absorb_fresh h x bytes b u = simp (u, b)

  absorb_waits :
      (h : Header) (bytes : List ℕ)
      → is_unknown_packet h ≡ false
      → begin_unpack h ≡ true
      → is_unpacked h ≡ false
      → absorb f h bytes ≡ absorb_rest f h bytes
  absorb_waits h [] known b u = unfold absorb in sym (rest_short h [] known (remain_len-pos h))
  absorb_waits h (x ∷ bytes) known b u = absorb_begun h x bytes b u

  resume_begun :
      (h : Header) (bytes more : List ℕ)
      → begin_unpack h ≡ true
      → is_unpacked h ≡ false
      → resume_rest (absorb_rest f h bytes) more ≡ resume (absorb_rest f h bytes) more
  resume_begun h bytes more b u = elim (Bool-cases (is_unknown_packet h)) [
    | inl e ↦ rw (rest_unknown h bytes e)
    | inr known ↦ elim (Bool-cases (ltb (length bytes) (remain_len h))) [
      | inl short ↦
          rw (rest_short h bytes known (ltb→lt _ _ short))
            (sym (absorb_waits h (bytes ++ more) known b u))
      | inr enough ↦ rw (rest_enough h bytes known (ltb→le _ _ enough))
    ]
  ]

  -- One call on all the bytes does what a call on the first ones does, followed by a call on what
  -- that left and the later ones where the first call was still waiting.
  pub absorb-append :
      (h : Header) (bytes more : List ℕ)
      → absorb f h (bytes ++ more) ≡ resume (absorb f h bytes) more
  absorb-append h [] more = unfold absorb in refl
  absorb-append h (x ∷ bytes) more = elim (Bool-cases (is_unpacked h)) [
    | inl e ↦ unfold absorb in simp e
    | inr u ↦ elim (Bool-cases (begin_unpack h)) [
      | inl b ↦
          rw (absorb_begun h x bytes b u, absorb_begun h x (bytes ++ more) b u)
            (absorb_rest-append h (x ∷ bytes) more ∙ resume_begun h (x ∷ bytes) more b u)
      | inr b ↦
          rw (absorb_fresh h x bytes b u, absorb_fresh h x (bytes ++ more) b u)
            (absorb_rest-append (first x h) bytes more
              ∙ resume_begun (first x h) bytes more (begin_unpack-first x h)
                  (is_unpacked-first x h ∙ u))
    ]
  ]

  -- What is known of the header that a call leaves.
  abbrev pub Shape : List ℕ → Header × List ℕ × Progress → Type 0
  Shape bytes (h, rest, waiting) = is_unpacked h ≡ false
  Shape bytes (h, rest, done) = (is_unpacked h ≡ true) × (length rest < length bytes)
  Shape bytes (h, rest, failed e) = Unit

  absorb_rest-Shape :
      (h : Header) (bytes : List ℕ) → is_unpacked h ≡ false → Shape bytes (absorb_rest f h bytes)
  absorb_rest-Shape h bytes u = elim (Bool-cases (is_unknown_packet h)) [
    | inl e ↦ rw (rest_unknown h bytes e) tt
    | inr known ↦ elim (Bool-cases (ltb (length bytes) (remain_len h))) [
      | inl short ↦ rw (rest_short h bytes known (ltb→lt _ _ short)) u
      | inr enough ↦
          let le = ltb→le (length bytes) (remain_len h) enough in
          rw (rest_enough h bytes known le) (
            is_unpacked-complete h bytes,
            omega (arith, length-drop (remain_len h) bytes, remain_len-pos h),
          )
    ]
  ]

  Shape-cons :
      (x : ℕ) (bytes : List ℕ) (r : Header × List ℕ × Progress)
      → Shape bytes r
      → Shape (x ∷ bytes) r
  Shape-cons x bytes (h, rest, waiting) s = s
  Shape-cons x bytes (h, rest, done) s = (s.0, omega arith)
  Shape-cons x bytes (h, rest, failed e) s = s

  pub absorb-Shape :
      (h : Header) (bytes : List ℕ) → is_unpacked h ≡ false → Shape bytes (absorb f h bytes)
  absorb-Shape h [] u = unfold absorb in u
  absorb-Shape h (x ∷ bytes) u = elim (Bool-cases (begin_unpack h)) [
    | inl b ↦ rw (absorb_begun h x bytes b u) (absorb_rest-Shape h (x ∷ bytes) u)
    | inr b ↦ rw (absorb_fresh h x bytes b u) (
        Shape-cons x bytes (absorb_rest f (first x h) bytes)
          (absorb_rest-Shape (first x h) bytes (is_unpacked-first x h ∙ u)))
  ]
