-- ===== src/V2/Stream/Refines.antt =====
-- `Unpack` of version 2 does what `step` does, whatever the ring buffer is.
use openapi_protocol.Base.{
  ℕ, ◌+◌, ◌≤◌, ◌≡◌, ◌≢◌, refl, ap, ◌∙◌, arith, List, length, length-drop, take, drop, drop-drop,
  ltb, ltb→le, Option, none, some, Bool-cases, inl, inr,
}
use openapi_protocol.Base.Result.{Result, ok, err, panic, Progress, waiting, done, failed}
use openapi_protocol.RingBuffer.{RingBuffer}
use openapi_protocol.RingBuffer.Reads.{read_slice}
use openapi_protocol.Gzip.{Library}
use openapi_protocol.Metadata.{Metadata}
use openapi_protocol.Metadata.Values.{unmarshal_values}
use openapi_protocol.Metadata.Values.RoundTrip.{unmarshal_values-ne-panic}
use openapi_protocol.Packet.{Report, pending, complete, failure, Outcome}
use openapi_protocol.Context.{Context, begin, end, set_header}
use openapi_protocol.V1.Header.Pool.{get_lem, metadata}
use openapi_protocol.V1.Packet.{decompress_body}
use openapi_protocol.V1.Stream.Signature.{sign, signed_length, take_signature-sign}
use openapi_protocol.V1.Stream.Step.{report_of}
use openapi_protocol.V1.Stream.Refines.{decompress_body-ne-panic}
use openapi_protocol.V2.Header.{HeaderV2, get, header_from_context}
use openapi_protocol.V2.Header.RoundTrip.{empty_v2}
use openapi_protocol.V2.Header.Absorb.{absorb, unpack-absorb_header}
use openapi_protocol.V2.Stream.{
  need, finish, unpack_metadata, unpack_body, after_header, unpack_from, unpack,
}
use openapi_protocol.V2.Stream.Step.{decoded, body_step, header_step, step_from, step}

pub get-empty : (pooled : HeaderV2) → get pooled ≡ empty_v2
unfolding get
get-empty pooled = rw (get_lem pooled.base)

pub need-parts :
    (h : HeaderV2) → need h ≡ h.metadata_length + h.base.body_length + signed_length h.base
unfolding need signed_length
need-parts h = ground arith

module _ {A : Type 0} where
  -- The context that a call leaves: the header under way in it, and the mark that a packet is
  -- being unpacked taken off once one is complete.
  abbrev pub leave : Context HeaderV2 A → Option HeaderV2 → Report → Context HeaderV2 A
  leave c h (complete p) = set_header h (end c)
  leave c h (failure e) = set_header h c
  leave c h pending = set_header h c

module _ (lower : List ℕ → List ℕ) (lib : Library) (rb : RingBuffer) {A : Type 0} where
  open rb use {Buf, contents, buf_length, read, length_law}

  -- The code ends as the step says, with the bytes left that it says.
  abbrev pub Leaves :
      Context HeaderV2 A
      → Outcome (Context HeaderV2 A) Buf
      → Option HeaderV2 × List ℕ × Report
      → Type 0
  Leaves c r s = (b : Buf) × (r ≡ ok (leave c s.0 s.2, b, s.2)) × (contents b ≡ s.1)

  finish_lem :
      (c : Context HeaderV2 A) (h : HeaderV2) (body : List ℕ) (md : Metadata) (b : Buf)
      → let report = report_of md (decompress_body lib h.base body) in
        finish lower lib rb c h body (some md, b) ≡ ok (leave c none report, b, report)
  unfolding finish report_of
  finish_lem c h body md b =
      by_result (decompress_body lib h.base body) (decompress_body-ne-panic lib h.base body)
    where
      by_result :
          (r : Result (List ℕ))
          → r ≢ panic
          → ◌≡◌ {A = Outcome (Context HeaderV2 A) Buf}
              (elim r [
                | ok out ↦
                    ok (set_header none (end c), b, complete (record { metadata = md; body = out }))
                | err e ↦ ok (set_header none c, b, failure e)
                | panic ↦ panic
              ])
              (ok (leave c none (report_of md r), b, report_of md r))
      by_result (ok out) ne = refl
      by_result (err e) ne = refl
      by_result panic ne = absurd (ne refl)

  metadata_lem :
      (c : Context HeaderV2 A) (h : HeaderV2) (bytes : List ℕ) (b : Buf) (r : Result Metadata)
      → r ≢ panic
      → need h ≤ length bytes
      → contents b ≡ drop (h.metadata_length + h.base.body_length) bytes
      → Leaves c
          (unpack_metadata lower lib rb c h
            (take h.base.body_length (drop h.metadata_length bytes))
            b
            r)
          (decoded lower lib c.codec h bytes r)
  unfolding unpack_metadata decoded
  metadata_lem c h bytes b (ok md) ne enough held =
      let body = take h.base.body_length (drop h.metadata_length bytes) in
      let behind = drop (h.metadata_length + h.base.body_length) bytes in
      let parts = need-parts h in
      let t =
        take_signature-sign rb h.base md b behind held
          (omega (arith, length-drop (h.metadata_length + h.base.body_length) bytes)) in
      (
        t.0,
        ap (finish lower lib rb c h body) t.1 ∙ finish_lem c h body (sign h.base md behind) t.0,
        t.2
            ∙ drop-drop (signed_length h.base) (h.metadata_length + h.base.body_length) bytes
            ∙ ap (λ (n : ℕ). drop n bytes) (omega arith),
      )
  metadata_lem c h bytes b (err e) ne enough held = (b, refl, held)
  metadata_lem c h bytes b panic ne enough held = absurd (ne refl)

  body_lem :
      (c : Context HeaderV2 A) (h : HeaderV2) (b : Buf) (bytes : List ℕ)
      → contents b ≡ bytes
      → Leaves c (unpack_body lower lib rb c h b) (body_step lower lib c.codec h bytes)
  unfolding unpack_body body_step
  body_lem c h b bytes held = elim (Bool-cases (ltb (length bytes) (need h))) [
    | inl short ↦ rw (length_law b, held, short) (b, refl, held)
    | inr enough ↦
        let le = ltb→le _ _ enough in
        let parts = need-parts h in
        let md = take h.metadata_length bytes in
        let m = read_slice rb h.metadata_length b bytes held (omega arith) in
        let r =
          read_slice rb h.base.body_length m.0 (drop h.metadata_length bytes) m.2
            (omega (arith, length-drop h.metadata_length bytes)) in
        let t =
          metadata_lem c h bytes r.0 (unmarshal_values lower (metadata h.base c.codec) md)
            (unmarshal_values-ne-panic lower (metadata h.base c.codec) md) le
            (r.2 ∙ drop-drop h.base.body_length h.metadata_length bytes) in
        rw enough (t.0, ground (arith, length_law b, m.1, r.1, t.1), t.2)
  ]

  after_lem :
      (c : Context HeaderV2 A) (b : Buf) (r : HeaderV2 × List ℕ × Progress)
      → contents b ≡ r.1
      → Leaves c (after_header lower lib rb c r.0 b r.2) (header_step lower lib c.codec r)
  unfolding after_header header_step
  after_lem c b (h, bytes, waiting) held = (b, refl, held)
  after_lem c b (h, bytes, failed e) held = (b, refl, held)
  after_lem c b (h, bytes, done) held = body_lem c h b bytes held

  from_lem :
      (c : Context HeaderV2 A) (h : HeaderV2) (b : Buf)
      → Leaves c (unpack_from lower lib rb c h b) (step_from lower lib c.codec h (contents b))
  unfolding unpack_from step_from
  from_lem c h b = elim (Bool-cases h.base.is_unpacked) [
    | inl e ↦ simp e (body_lem c h b (contents b) refl)
    | inr e ↦
        let r = unpack-absorb_header rb h b (contents b) refl in
        let t = after_lem c r.0 (absorb h (contents b)) r.2 in
        simp e (t.0, ground (arith, r.1, t.1), t.2)
  ]

  -- `Unpack` of version 2 never panics, and on every ring buffer and from every context it does what
  -- `step` does on the bytes held.
  pub unpack-step_v2 :
      (pooled : HeaderV2) (c : Context HeaderV2 A) (b : Buf)
      → Leaves
          (begin c)
          (unpack lower lib rb pooled c b)
          (step lower lib c.codec c.header (contents b))
  unfolding unpack step header_from_context begin
  unpack-step_v2 pooled c b = by_header c.header
    where
      by_header :
          (o : Option HeaderV2)
          → Leaves
              (begin c)
              (unpack_from lower lib rb (begin c) (elim o [ none ↦ get pooled | some h ↦ h ]) b)
              (step lower lib c.codec o (contents b))
      by_header none = rw (get-empty pooled) (from_lem (begin c) empty_v2 b)
      by_header (some h) = from_lem (begin c) h b
