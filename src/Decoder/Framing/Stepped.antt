-- ===== src/Decoder/Framing/Stepped.antt =====
-- `Unpack` of both versions on the bytes that the buffer holds: the header, if it is not there yet,
-- and then what is behind it. Given what a version does behind the header, this is a decoder.
use openapi_protocol.Base.{
  ℕ, suc, ◌+◌, ◌<◌, ◌≡◌, ◌≢◌, refl, sym, ◌∙◌, arith, List, ◌++◌, length, true, false, ◌⊎◌,
  if◌then◌else◌, Option, none, some, Bool-cases, inl, inr,
}
use openapi_protocol.Base.Result.{Progress, waiting, done, failed}
use openapi_protocol.Packet.{Packet, Report, pending, complete, failure}
use openapi_protocol.Decoder.{Decoder, resume}
use openapi_protocol.Decoder.Framing.{Framing, absorb}
use openapi_protocol.Decoder.Framing.Resumed
use openapi_protocol.Decoder.Framing.Resumed.{Shape, absorb-append, absorb-Shape}

-- The result with later bytes behind what is left.
abbrev pub extend : {S : Type 0} → S × List ℕ × Report → List ℕ → S × List ℕ × Report
extend (s, rest, r) more = (s, rest ++ more, r)

abbrev pub weight : {H : Type 0} → Option H → ℕ
weight none = 0
weight (some h) = 1

-- What a version does behind the header: it waits for more bytes, or it does not look at those
-- behind the ones that it needs.
pub record Body (f : Framing) : Type 0 where
  pub empty : f.Header
  pub body_step : f.Header → List ℕ → Option f.Header × List ℕ × Report
  pub is_unpacked-empty : f.is_unpacked empty ≡ false
  pub body_step-append :
      (h : f.Header) (bytes more : List ℕ)
      → (body_step h bytes ≡ (some h, bytes, pending))
        ⊎ ((body_step h (bytes ++ more) ≡ extend (body_step h bytes) more)
            × ((body_step h bytes).2 ≢ pending))
  pub body_step-Takes :
      (h : f.Header) (bytes : List ℕ) (p : Packet)
      → (body_step h bytes).2 ≡ complete p
      → length (body_step h bytes).1 + weight (body_step h bytes).0 < suc (length bytes)

module _ {f : Framing} (b : Body f) where
  open f use {Header, is_unpacked}
  open b use {empty, body_step, is_unpacked-empty, body_step-append, body_step-Takes}

  unfoldable pub header_step : Header × List ℕ × Progress → Option Header × List ℕ × Report
  header_step (h, bytes, waiting) = (some h, bytes, pending)
  header_step (h, bytes, failed e) = (none, bytes, failure e)
  header_step (h, bytes, done) = body_step h bytes

  unfoldable pub step_from : Header → List ℕ → Option Header × List ℕ × Report
  step_from h bytes = if is_unpacked h then body_step h bytes else header_step (absorb f h bytes)

  unfoldable pub step : Option Header → List ℕ → Option Header × List ℕ × Report
  unfolding step_from
  step none bytes = step_from empty bytes
  step (some h) bytes = step_from h bytes

  resume-extend :
      (r : Option Header × List ℕ × Report) (more : List ℕ)
      → r.2 ≢ pending
      → resume step r more ≡ extend r more
  resume-extend (s, rest, pending) more ne = absurd (ne refl)
  resume-extend (s, rest, complete p) more ne = refl
  resume-extend (s, rest, failure e) more ne = refl

  body_step-resume :
      (h : Header) (bytes more : List ℕ)
      → is_unpacked h ≡ true
      → body_step h (bytes ++ more) ≡ resume step (body_step h bytes) more
  body_step-resume h bytes more u = elim (body_step-append h bytes more) [
    | inl e ↦ rw e (unfold step step_from in simp u)
    | inr e ↦ e.0 ∙ sym (resume-extend (body_step h bytes) more e.1)
  ]

  header_step-append :
      (bytes more : List ℕ) (r : Header × List ℕ × Progress)
      → Shape f bytes r
      → header_step (Resumed.resume f r more) ≡ resume step (header_step r) more
  unfolding header_step step step_from
  header_step-append bytes more (h, rest, waiting) s = simp s
  header_step-append bytes more (h, rest, failed e) s = refl
  header_step-append bytes more (h, rest, done) s = body_step-resume h rest more s.0

  step_from-append :
      (h : Header) (bytes more : List ℕ)
      → step_from h (bytes ++ more) ≡ resume step (step_from h bytes) more
  unfolding step_from
  step_from-append h bytes more = elim (Bool-cases (is_unpacked h)) [
    | inl u ↦ simp u (body_step-resume h bytes more u)
    | inr u ↦
        simp (u, absorb-append f h bytes more)
          (header_step-append bytes more (absorb f h bytes) (absorb-Shape f h bytes u))
  ]

  pub step-append :
      (s : Option Header) (bytes more : List ℕ)
      → step s (bytes ++ more) ≡ resume step (step s bytes) more
  step-append none bytes more = unfold step in step_from-append empty bytes more
  step-append (some h) bytes more = unfold step in step_from-append h bytes more

  abbrev Takes : ℕ → Option Header × List ℕ × Report → Type 0
  Takes n r = length r.1 + weight r.0 < n

  header_step-Takes :
      (bytes : List ℕ) (r : Header × List ℕ × Progress) (p : Packet)
      → Shape f bytes r
      → (header_step r).2 ≡ complete p
      → Takes (length bytes) (header_step r)
  unfolding header_step
  header_step-Takes bytes (h, rest, waiting) p s e = cc
  header_step-Takes bytes (h, rest, failed x) p s e = cc
  header_step-Takes bytes (h, rest, done) p s e = omega (arith, body_step-Takes h rest p e)

  step_from-Takes :
      (h : Header) (bytes : List ℕ) (p : Packet)
      → (step_from h bytes).2 ≡ complete p
      → Takes (suc (length bytes)) (step_from h bytes)
  unfolding step_from
  step_from-Takes h bytes p = elim (Bool-cases (is_unpacked h)) [
    | inl u ↦ simp u (body_step-Takes h bytes p)
    | inr u ↦ simp u (λ e.
        omega (arith, header_step-Takes bytes (absorb f h bytes) p (absorb-Shape f h bytes u) e))
  ]

  step_empty-Takes :
      (bytes : List ℕ) (p : Packet)
      → (step_from empty bytes).2 ≡ complete p
      → Takes (length bytes) (step_from empty bytes)
  unfolding step_from
  step_empty-Takes bytes p = simp is_unpacked-empty (
      header_step-Takes bytes (absorb f empty bytes) p
        (absorb-Shape f empty bytes is_unpacked-empty))

  pub complete-Takes :
      (s : Option Header) (bytes : List ℕ) (p : Packet)
      → (step s bytes).2 ≡ complete p
      → Takes (length bytes + weight s) (step s bytes)
  unfolding step
  complete-Takes none bytes p e = omega (arith, step_empty-Takes bytes p e)
  complete-Takes (some h) bytes p e = omega (arith, step_from-Takes h bytes p e)

  -- The decoder of a version whose step is the one above.
  abbrev pub decoder_of :
      (g : Option Header → List ℕ → Option Header × List ℕ × Report) → g ≡ step → Decoder
  decoder_of g e = record {
    State = Option Header;
    step = g;
    weight = weight;
    step-append = λ s bytes more. rw e (step-append s bytes more);
    complete_takes = λ s bytes p. rw e (complete-Takes s bytes p);
  }
