-- ===== src/V2/Header/Append.antt =====
-- The header of version 2 as a decoder takes it: `Header.Unpack` does not look at bytes behind the ones
-- that it needs.
use openapi_protocol.Base.{ℕ, ◌≤◌, ◌<◌, ◌≡◌, refl, arith, List, [], ◌∷◌, ◌++◌, length, true, false}
use openapi_protocol.Decoder.Framing.{Framing}
use openapi_protocol.Decoder.Framing
use openapi_protocol.V1.Header.{
  is_unknown_packet, set_first_byte, request_packet, response_packet, push_packet,
}
use openapi_protocol.V1.Header.Fields.{body24}
use openapi_protocol.V2.Header.{HeaderV2, remain_len}
use openapi_protocol.V2.Header.Fields.{fields}
use openapi_protocol.V2.Header.Absorb.{absorb, absorb_rest}

request-append :
    (h : HeaderV2) (bytes more : List ℕ)
    → h.base.type ≡ request_packet
    → 12 ≤ length bytes
    → fields h (bytes ++ more) ≡ fields h bytes
unfolding fields body24
request-append h (c ∷ i0 ∷ i1 ∷ i2 ∷ i3 ∷ t0 ∷ t1 ∷ m0 ∷ m1 ∷ l0 ∷ l1 ∷ l2 ∷ rest) more e le = rw e
request-append h bytes more e le = absurd (omega arith)

response-append :
    (h : HeaderV2) (bytes more : List ℕ)
    → h.base.type ≡ response_packet
    → 11 ≤ length bytes
    → fields h (bytes ++ more) ≡ fields h bytes
unfolding fields body24
response-append h (c ∷ i0 ∷ i1 ∷ i2 ∷ i3 ∷ s ∷ m0 ∷ m1 ∷ l0 ∷ l1 ∷ l2 ∷ rest) more e le = rw e
response-append h bytes more e le = absurd (omega arith)

push-append :
    (h : HeaderV2) (bytes more : List ℕ)
    → h.base.type ≡ push_packet
    → 6 ≤ length bytes
    → fields h (bytes ++ more) ≡ fields h bytes
unfolding fields body24
push-append h (c ∷ m0 ∷ m1 ∷ l0 ∷ l1 ∷ l2 ∷ rest) more e le = rw e
push-append h bytes more e le = absurd (omega arith)

fields-append :
    (h : HeaderV2) (bytes more : List ℕ)
    → is_unknown_packet h.base ≡ false
    → remain_len h ≤ length bytes
    → fields h (bytes ++ more) ≡ fields h bytes
unfolding is_unknown_packet remain_len
fields-append h bytes more known le =
    ground
      (arith, request-append h bytes more, response-append h bytes more, push-append h bytes more)

pub remain_len-pos : (h : HeaderV2) → 0 < remain_len h
unfolding remain_len
remain_len-pos h = ground arith

pub fields-is_unpacked :
    (h : HeaderV2) (bytes : List ℕ) → (fields h bytes).base.is_unpacked ≡ h.base.is_unpacked
unfolding fields
fields-is_unpacked h bytes = ground arith

-- The header whose fields are read last.
abbrev pub marked : HeaderV2 → HeaderV2
marked h = record h { base = record h.base { is_unpacked = true } }

pub fields_unpacked-append :
    (h : HeaderV2) (bytes more : List ℕ)
    → is_unknown_packet h.base ≡ false
    → remain_len h ≤ length bytes
    → fields (marked h) (bytes ++ more) ≡ fields (marked h) bytes
unfolding is_unknown_packet remain_len
fields_unpacked-append h bytes more known le = fields-append (marked h) bytes more known le

-- The header after its first byte.
abbrev pub begun : ℕ → HeaderV2 → HeaderV2
begun x h = record h { base = record (set_first_byte x h.base) { begin_unpack = true } }

pub begun-is_unpacked : (x : ℕ) (h : HeaderV2) → (begun x h).base.is_unpacked ≡ h.base.is_unpacked
unfolding set_first_byte
begun-is_unpacked x h = refl

abbrev pub framing : Framing
framing = record {
  Header = HeaderV2;
  is_unpacked = λ h. h.base.is_unpacked;
  begin_unpack = λ h. h.base.begin_unpack;
  is_unknown_packet = λ h. is_unknown_packet h.base;
  remain_len = remain_len;
  first = begun;
  complete = λ h. fields (marked h);
  remain_len-pos = remain_len-pos;
  is_unpacked-first = begun-is_unpacked;
  begin_unpack-first = λ x h. refl;
  is_unpacked-complete = λ h. fields-is_unpacked (marked h);
  complete-append = fields_unpacked-append;
}

-- `Header.Unpack` is what a framing makes of it.
pub absorb-framed :
    (h : HeaderV2) (bytes : List ℕ) → absorb h bytes ≡ Framing.absorb framing h bytes
unfolding absorb absorb_rest Framing.absorb Framing.absorb_rest
absorb-framed h [] = refl
absorb-framed h (x ∷ bytes) = refl
