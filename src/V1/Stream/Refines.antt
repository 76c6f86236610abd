-- ===== src/V1/Stream/Refines.antt =====
-- `Unpack` does what `step` does, whatever the ring buffer is.
use openapi_protocol.Base.{
  ℕ, ◌≤◌, ◌≡◌, ◌≢◌, refl, ap, ◌∙◌, arith, List, length, length-drop, take, drop, drop-drop, ltb,
  ltb→le, Option, none, some, Bool-cases, inl, inr,
}
use openapi_protocol.Base.Result.{Result, ok, err, panic, Progress, waiting, done, failed}
use openapi_protocol.RingBuffer.{RingBuffer}
use openapi_protocol.Gzip.{Library, decompress}
use openapi_protocol.Metadata.{Metadata}
use openapi_protocol.Packet.{Report, pending, complete, failure, Outcome}
use openapi_protocol.Context.{Context, begin, end, set_header}
use openapi_protocol.V1.Header.{Header, empty}
use openapi_protocol.V1.Header.Absorb.{absorb, unpack-absorb}
use openapi_protocol.V1.Header.Pool.{get, get_lem, metadata}
use openapi_protocol.V1.Packet.{decompress_body, header_from_context}
use openapi_protocol.V1.Stream.{
  need, take_signature, finish, unpack_body, after_header, unpack_from, unpack,
}
use openapi_protocol.V1.Stream.Signature.{sign, signed_length, take_signature-sign}
use openapi_protocol.V1.Stream.Step.{
  report_of, signed, deliver, body_step, header_step, step_from, step,
}

pub decompress_body-ne-panic :
    (lib : Library) (h : Header) (body : List ℕ) → decompress_body lib h body ≢ panic
unfolding decompress_body decompress
decompress_body-ne-panic lib h body = ground arith

pub body-le-need : (h : Header) → h.body_length ≤ need h
unfolding need
body-le-need h = ground arith

module _ {A : Type 0} where
  -- The context that a call leaves: the header under way in it, and the mark that a packet is
  -- being unpacked taken off once one is complete.
  abbrev pub leave : Context Header A → Option Header → Report → Context Header A
  leave c h (complete p) = set_header h (end c)
  leave c h (failure e) = set_header h c
  leave c h pending = set_header h c

module _ (rb : RingBuffer) where
  open rb use {Buf, contents}

  take_signature_lem :
      (h : Header) (codec : ℕ) (bytes : List ℕ) (b : Buf)
      → contents b ≡ drop h.body_length bytes
      → need h ≤ length bytes
      → (b' : Buf) × (take_signature rb h (metadata h codec) b ≡ (some (signed h codec bytes), b'))
        × (contents b' ≡ drop (need h) bytes)
  take_signature_lem h codec bytes b held enough =
      let left = length-drop h.body_length bytes in
      let r =
        take_signature-sign rb h (metadata h codec) b (drop h.body_length bytes) held
          (unfold need signed_length in ground arith) in
      (
        r.0,
        r.1 ∙ (unfold sign signed in refl),
        r.2
            ∙ drop-drop (signed_length h) h.body_length bytes
            ∙ ap (λ (n : ℕ). drop n bytes) (unfold need signed_length in ground arith),
      )

module _ (lib : Library) (rb : RingBuffer) {A : Type 0} where
  open rb use {
    Buf, contents, buf_length, retrieve, length_law, read_law, retrieve_law, peek_uint64_law,
  }

  -- The code ends as the step says, with the bytes left that it says.
  abbrev pub Leaves :
      Context Header A → Outcome (Context Header A) Buf → Option Header × List ℕ × Report → Type 0
  Leaves c r s = (b : Buf) × (r ≡ ok (leave c s.0 s.2, b, s.2)) × (contents b ≡ s.1)

  finish_lem :
      (c : Context Header A) (h : Header) (body : List ℕ) (md : Metadata) (b : Buf)
      → let report = report_of md (decompress_body lib h body) in
        finish lib rb c h body (some md) b ≡ ok (leave c none report, b, report)
  unfolding finish report_of
  finish_lem c h body md b =
      by_result (decompress_body lib h body) (decompress_body-ne-panic lib h body)
    where
      by_result :
          (r : Result (List ℕ))
          → r ≢ panic
          → ◌≡◌ {A = Outcome (Context Header A) Buf}
              (elim r [
                | ok out ↦
                    ok (set_header none (end c), b, complete (record { metadata = md; body = out }))
                | err e ↦ ok (set_header none c, b, failure e)
                | panic ↦ panic
              ])
              (ok (leave c none (report_of md r), b, report_of md r))
      by_result (ok out) ne = refl
      by_result (err e) ne = refl
      by_result panic ne = absurd (ne refl)

  body_lem :
      (c : Context Header A) (h : Header) (b : Buf)
      → Leaves c (unpack_body lib rb c h b) (body_step lib c.codec h (contents b))
  unfolding unpack_body body_step deliver
  body_lem c h b = elim (Bool-cases (ltb (length (contents b)) (need h))) [
    | inl short ↦ rw (length_law b, short) (b, refl, refl)
    | inr enough ↦
        let r = read_law h.body_length b (omega (arith, body-le-need h, ltb→le _ _ enough)) in
        let t = take_signature_lem rb h c.codec (contents b) r.0 r.2 (ltb→le _ _ enough) in
        let f =
          finish_lem c h (take h.body_length (contents b)) (signed h c.codec (contents b)) t.0 in
        rw enough (t.0, ground (arith, length_law b, r.1, t.1, f), t.2)
  ]

  after_lem :
      (c : Context Header A) (b : Buf) (r : Header × List ℕ × Progress)
      → contents b ≡ r.1
      → Leaves c (after_header lib rb c r.0 b r.2) (header_step lib c.codec r)
  unfolding after_header header_step
  after_lem c b (h, bytes, waiting) held = (b, refl, held)
  after_lem c b (h, bytes, failed e) held = (b, refl, held)
  after_lem c b (h, bytes, done) held = rw (← held) (body_lem c h b)

  from_lem :
      (c : Context Header A) (h : Header) (b : Buf)
      → Leaves c (unpack_from lib rb c h b) (step_from lib c.codec h (contents b))
  unfolding unpack_from step_from
  from_lem c h b = elim (Bool-cases h.is_unpacked) [
    | inl e ↦ simp e (body_lem c h b)
    | inr e ↦
        let r = unpack-absorb rb h b (contents b) refl in
        let t = after_lem c r.0 (absorb h (contents b)) r.2 in
        simp e (t.0, ground (arith, r.1, t.1), t.2)
  ]

  -- `Unpack` never panics, and on every ring buffer it does what `step` does on the bytes held.
  pub unpack-step :
      (pooled : Header) (c : Context Header A) (b : Buf)
      → Leaves (begin c) (unpack lib rb pooled c b) (step lib c.codec c.header (contents b))
  unfolding unpack step header_from_context begin
  unpack-step pooled c b = by_header c.header
    where
      by_header :
          (o : Option Header)
          → Leaves
              (begin c)
              (unpack_from lib rb (begin c) (elim o [ none ↦ get pooled | some h ↦ h ]) b)
              (step lib c.codec o (contents b))
      by_header none = rw (get_lem pooled) (from_lem (begin c) empty b)
      by_header (some h) = from_lem (begin c) h b
