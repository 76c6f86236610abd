-- ===== src/V1/Stream/Append.antt =====
-- Bytes that arrive later do not change what `Unpack` made of the earlier ones.
use openapi_protocol.Base.{
  ℕ, ◌+◌, ◌≤◌, suc, ◌⊎◌, ◌<◌, ◌≡◌, ◌≢◌, refl, arith, List, ◌++◌, length, length-append, length-drop,
  take, drop, take-append_le, drop-append_le, true, ltb, ltb→le, le→ltb, ◌==◌, Option, none, some,
  Bool-cases, inl, inr,
}
use openapi_protocol.Base.Result.{Result, ok, err, panic, Progress, waiting, done, failed}
use openapi_protocol.Gzip.{Library}
use openapi_protocol.Metadata.{Metadata}
use openapi_protocol.Packet.{Packet, pending, complete}
use openapi_protocol.Decoder.{resume}
use openapi_protocol.V1.Header.{Header, empty}
use mathlib.Core.Path.{fun_ext}
use openapi_protocol.Decoder.Framing
use openapi_protocol.Decoder.Framing.Stepped
use openapi_protocol.Decoder.Framing.Stepped.{Body, extend, weight}
use openapi_protocol.V1.Header.Append.{framing, absorb-framed}
use openapi_protocol.V1.Packet.{decompress_body}
use openapi_protocol.V1.Stream.{need}
use openapi_protocol.V1.Stream.Step.{
  signed, report_of, deliver, body_step, header_step, step_from, step,
}
use openapi_protocol.V1.Stream.Refines.{decompress_body-ne-panic, body-le-need}

signed-append :
    (h : Header) (codec : ℕ) (bytes more : List ℕ)
    → need h ≤ length bytes
    → signed h codec (bytes ++ more) ≡ signed h codec bytes
unfolding signed need
signed-append h codec bytes more le = elim (Bool-cases (h.verify == 1)) [
  | inr e ↦ rw e refl
  | inl e ↦
      let behind = drop h.body_length bytes in
      let le' : h.body_length + 8 + 16 ≤ length bytes = simp e at le in
      let left = length-drop h.body_length bytes in
      let left' = length-drop 8 behind in
      rw
        (
          e,
          drop-append_le h.body_length bytes more (omega arith),
          take-append_le 8 behind more (omega arith),
          drop-append_le 8 behind more (omega arith),
          take-append_le 16 (drop 8 behind) more (omega arith),
        )
        refl
]

pub report_of-ne-pending :
    (md : Metadata) (r : Result (List ℕ)) → r ≢ panic → report_of md r ≢ pending
unfolding report_of
report_of-ne-pending md (ok out) ne = λ e. cc
report_of-ne-pending md (err x) ne = λ e. cc
report_of-ne-pending md panic ne = absurd (ne refl)

module _ (lib : Library) (codec : ℕ) where
  deliver-append :
      (h : Header) (bytes more : List ℕ)
      → need h ≤ length bytes
      → deliver lib codec h (bytes ++ more) ≡ deliver lib codec h bytes
  unfolding deliver
  deliver-append h bytes more le =
      rw
        (
          signed-append h codec bytes more le,
          take-append_le h.body_length bytes more (omega (arith, body-le-need h)),
        )
        refl

  body_step_short :
      (h : Header) (bytes : List ℕ)
      → ltb (length bytes) (need h) ≡ true
      → body_step lib codec h bytes ≡ (some h, bytes, pending)
  unfolding body_step
  body_step_short h bytes e = rw e

  pub body_step_enough :
      (h : Header) (bytes : List ℕ)
      → need h ≤ length bytes
      → body_step lib codec h bytes ≡ (none, drop (need h) bytes, deliver lib codec h bytes)
  unfolding body_step
  body_step_enough h bytes le = rw (le→ltb _ _ le)

  pub body_step-append :
      (h : Header) (bytes more : List ℕ)
      → (body_step lib codec h bytes ≡ (some h, bytes, pending))
        ⊎ ((body_step lib codec h (bytes ++ more) ≡ extend (body_step lib codec h bytes) more)
            × ((body_step lib codec h bytes).2 ≢ pending))
  body_step-append h bytes more = elim (Bool-cases (ltb (length bytes) (need h))) [
    | inl short ↦ inl (body_step_short h bytes short)
    | inr enough ↦
        let le = ltb→le (length bytes) (need h) enough in
        rw
          (
            body_step_enough h bytes le,
            body_step_enough h (bytes ++ more) (omega (arith, length-append bytes more)),
            drop-append_le (need h) bytes more le,
            deliver-append h bytes more le,
          )
          (inr (
            refl,
            unfold deliver in
                report_of-ne-pending (signed h codec bytes)
                  (decompress_body lib h (take h.body_length bytes))
                  (decompress_body-ne-panic lib h (take h.body_length bytes)),
          ))
  ]

  pub body_step-Takes :
      (h : Header) (bytes : List ℕ) (p : Packet)
      → (body_step lib codec h bytes).2 ≡ complete p
      → length (body_step lib codec h bytes).1 + weight (body_step lib codec h bytes).0
        < suc (length bytes)
  unfolding body_step
  body_step-Takes h bytes p e = ground (arith, length-drop (need h) bytes)

  abbrev pub body : Body framing
  body = record {
    empty = empty;
    body_step = body_step lib codec;
    is_unpacked-empty = refl;
    body_step-append = body_step-append;
    body_step-Takes = body_step-Takes;
  }

  header_step-framed :
      (r : Header × List ℕ × Progress) → header_step lib codec r ≡ Stepped.header_step body r
  unfolding header_step Stepped.header_step
  header_step-framed (h, bytes, waiting) = refl
  header_step-framed (h, bytes, failed e) = refl
  header_step-framed (h, bytes, done) = refl

  step_from-framed :
      (h : Header) (bytes : List ℕ) → step_from lib codec h bytes ≡ Stepped.step_from body h bytes
  unfolding step_from Stepped.step_from
  step_from-framed h bytes =
      rw (absorb-framed h bytes, header_step-framed (Framing.absorb framing h bytes)) refl

  step-at :
      (s : Option Header) (bytes : List ℕ) → step lib codec s bytes ≡ Stepped.step body s bytes
  step-at none bytes = unfold step Stepped.step in step_from-framed empty bytes
  step-at (some h) bytes = unfold step Stepped.step in step_from-framed h bytes

  -- `step` is what its framing makes of what it does behind the header.
  pub step-framed : step lib codec ≡ Stepped.step body
  step-framed = fun_ext λ s. fun_ext λ bytes. step-at s bytes

  pub step-append :
      (s : Option Header) (bytes more : List ℕ)
      → step lib codec s (bytes ++ more) ≡ resume (step lib codec) (step lib codec s bytes) more
  step-append s bytes more = rw step-framed (Stepped.step-append body s bytes more)
