-- ===== src/V2/Stream/Append.antt =====
-- Bytes that arrive later do not change what `Unpack` of version 2 made of the earlier ones.
use mathlib.Core.Path.{fun_ext}
use openapi_protocol.Base.{
  ℕ, suc, ◌+◌, ◌≤◌, ◌<◌, ◌≡◌, ◌≢◌, refl, arith, List, ◌++◌, length, length-append, length-drop,
  take, drop, take-append_le, drop-append_le, true, ◌⊎◌, ltb, ltb→le, le→ltb, ◌==◌, Option, none,
  some, Bool-cases, inl, inr,
}
use openapi_protocol.Base.Result.{Result, ok, err, panic, Progress, waiting, done, failed}
use openapi_protocol.Decoder.Framing
use openapi_protocol.Decoder.Framing.Stepped
use openapi_protocol.Decoder.Framing.Stepped.{Body, extend, weight}
use openapi_protocol.Gzip.{Library}
use openapi_protocol.Metadata.{Metadata}
use openapi_protocol.Metadata.Values.{unmarshal_values}
use openapi_protocol.Metadata.Values.RoundTrip.{unmarshal_values-ne-panic}
use openapi_protocol.Packet.{Packet, pending, complete}
use openapi_protocol.V1.Header.{Header}
use openapi_protocol.V1.Header.Pool.{metadata}
use openapi_protocol.V1.Packet.{decompress_body}
use openapi_protocol.V1.Stream.Append.{report_of-ne-pending}
use openapi_protocol.V1.Stream.Refines.{decompress_body-ne-panic}
use openapi_protocol.V1.Stream.Signature.{sign, signed_length}
use openapi_protocol.V2.Header.{HeaderV2}
use openapi_protocol.V2.Header.Append.{framing, absorb-framed}
use openapi_protocol.V2.Header.RoundTrip.{empty_v2}
use openapi_protocol.V2.Stream.{need}
use openapi_protocol.V2.Stream.Refines.{need-parts}
use openapi_protocol.V2.Stream.Step.{decoded, body_step, header_step, step_from, step}

sign-append :
    (h : Header) (md : Metadata) (bytes more : List ℕ)
    → signed_length h ≤ length bytes
    → sign h md (bytes ++ more) ≡ sign h md bytes
unfolding sign signed_length
sign-append h md bytes more le = elim (Bool-cases (h.verify == 1)) [
  | inr e ↦ rw e refl
  | inl e ↦
      let le' : 24 ≤ length bytes = simp e at le in
      let left = length-drop 8 bytes in
      rw
        (
          e,
          take-append_le 8 bytes more (omega arith),
          drop-append_le 8 bytes more (omega arith),
          take-append_le 16 (drop 8 bytes) more (omega arith),
        )
        refl
]

module _ (lower : List ℕ → List ℕ) (lib : Library) (codec : ℕ) where
  -- What is decoded does not depend on later bytes.
  decoded-append :
      (h : HeaderV2) (bytes more : List ℕ) (r : Result Metadata)
      → need h ≤ length bytes
      → decoded lower lib codec h (bytes ++ more) r
        ≡ extend (decoded lower lib codec h bytes r) more
  unfolding decoded
  decoded-append h bytes more (ok md) le =
      let parts = need-parts h in
      let len = h.metadata_length + h.base.body_length in
      rw
        (
          drop-append_le (need h) bytes more le,
          drop-append_le len bytes more (omega arith),
          sign-append h.base md (drop len bytes) more (omega (arith, length-drop len bytes)),
          drop-append_le h.metadata_length bytes more (omega arith),
          take-append_le h.base.body_length (drop h.metadata_length bytes) more
              (omega (arith, length-drop h.metadata_length bytes)),
        )
        refl
  decoded-append h bytes more (err e) le =
      let parts = need-parts h in
      rw (drop-append_le (h.metadata_length + h.base.body_length) bytes more (omega arith)) refl
  decoded-append h bytes more panic le = refl

  decoded-ne-pending :
      (h : HeaderV2) (bytes : List ℕ) (r : Result Metadata)
      → r ≢ panic
      → (decoded lower lib codec h bytes r).2 ≢ pending
  unfolding decoded
  decoded-ne-pending h bytes (ok md) ne =
      let body = take h.base.body_length (drop h.metadata_length bytes) in
      report_of-ne-pending (sign h.base md (drop (h.metadata_length + h.base.body_length) bytes))
        (decompress_body lib h.base body) (decompress_body-ne-panic lib h.base body)
  decoded-ne-pending h bytes (err e) ne = λ e. cc
  decoded-ne-pending h bytes panic ne = absurd (ne refl)

  abbrev values : HeaderV2 → List ℕ → Result Metadata
  values h bytes = unmarshal_values lower (metadata h.base codec) (take h.metadata_length bytes)

  body_step_short :
      (h : HeaderV2) (bytes : List ℕ)
      → ltb (length bytes) (need h) ≡ true
      → body_step lower lib codec h bytes ≡ (some h, bytes, pending)
  unfolding body_step
  body_step_short h bytes e = rw e

  body_step_enough :
      (h : HeaderV2) (bytes : List ℕ)
      → need h ≤ length bytes
      → body_step lower lib codec h bytes ≡ decoded lower lib codec h bytes (values h bytes)
  unfolding body_step
  body_step_enough h bytes le = rw (le→ltb _ _ le)

  pub body_step-append :
      (h : HeaderV2) (bytes more : List ℕ)
      → (body_step lower lib codec h bytes ≡ (some h, bytes, pending))
        ⊎ ((body_step lower lib codec h (bytes ++ more)
              ≡ extend (body_step lower lib codec h bytes) more)
            × ((body_step lower lib codec h bytes).2 ≢ pending))
  body_step-append h bytes more = elim (Bool-cases (ltb (length bytes) (need h))) [
    | inl short ↦ inl (body_step_short h bytes short)
    | inr enough ↦
        let le = ltb→le (length bytes) (need h) enough in
        let parts = need-parts h in
        rw
          (
            body_step_enough h bytes le,
            body_step_enough h (bytes ++ more) (omega (arith, length-append bytes more)),
            take-append_le h.metadata_length bytes more (omega arith),
            decoded-append h bytes more (values h bytes) le,
          )
          (inr (
            refl,
            decoded-ne-pending h bytes (values h bytes) (
                unmarshal_values-ne-panic lower (metadata h.base codec)
                  (take h.metadata_length bytes)),
          ))
  ]

  decoded-Takes :
      (h : HeaderV2) (bytes : List ℕ) (r : Result Metadata) (p : Packet)
      → (decoded lower lib codec h bytes r).2 ≡ complete p
      → length (decoded lower lib codec h bytes r).1 + weight (decoded lower lib codec h bytes r).0
        < suc (length bytes)
  unfolding decoded
  decoded-Takes h bytes (ok md) p e = omega (arith, length-drop (need h) bytes)
  decoded-Takes h bytes (err x) p e = cc
  decoded-Takes h bytes panic p e = cc

  pub body_step-Takes :
      (h : HeaderV2) (bytes : List ℕ) (p : Packet)
      → (body_step lower lib codec h bytes).2 ≡ complete p
      → length (body_step lower lib codec h bytes).1 + weight (body_step lower lib codec h bytes).0
        < suc (length bytes)
  unfolding body_step
  body_step-Takes h bytes p = elim (Bool-cases (ltb (length bytes) (need h))) [
    | inl short ↦ simp short (λ e. cc)
    | inr enough ↦ simp enough (decoded-Takes h bytes (values h bytes) p)
  ]

  abbrev pub body : Body framing
  body = record {
    empty = empty_v2;
    body_step = body_step lower lib codec;
    is_unpacked-empty = refl;
    body_step-append = body_step-append;
    body_step-Takes = body_step-Takes;
  }

  header_step-framed :
      (r : HeaderV2 × List ℕ × Progress)
      → header_step lower lib codec r ≡ Stepped.header_step body r
  unfolding header_step Stepped.header_step
  header_step-framed (h, bytes, waiting) = refl
  header_step-framed (h, bytes, failed e) = refl
  header_step-framed (h, bytes, done) = refl

  step_from-framed :
      (h : HeaderV2) (bytes : List ℕ)
      → step_from lower lib codec h bytes ≡ Stepped.step_from body h bytes
  unfolding step_from Stepped.step_from
  step_from-framed h bytes =
      rw (absorb-framed h bytes, header_step-framed (Framing.absorb framing h bytes)) refl

  step-at :
      (s : Option HeaderV2) (bytes : List ℕ)
      → step lower lib codec s bytes ≡ Stepped.step body s bytes
  step-at none bytes = unfold step Stepped.step in step_from-framed empty_v2 bytes
  step-at (some h) bytes = unfold step Stepped.step in step_from-framed h bytes

  -- `step` is what its framing makes of what it does behind the header.
  pub step-framed : step lower lib codec ≡ Stepped.step body
  step-framed = fun_ext λ s. fun_ext λ bytes. step-at s bytes
