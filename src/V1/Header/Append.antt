-- ===== src/V1/Header/Append.antt =====
-- The header of version 1 as a decoder takes it: `Header.Unpack` does not look at bytes behind the ones
-- that it needs.
use openapi_protocol.Base.{ℕ, ◌≤◌, ◌<◌, ◌≡◌, refl, arith, List, [], ◌∷◌, ◌++◌, length, true, false}
use openapi_protocol.V1.Header.{
  Header, is_unknown_packet, remain_len, set_first_byte, request_packet, response_packet,
  push_packet,
}
use openapi_protocol.V1.Header.Fields.{fields}
use openapi_protocol.V1.Header.Absorb.{absorb, absorb_rest}
use openapi_protocol.Decoder.Framing.{Framing}
use openapi_protocol.Decoder.Framing

request-append :
    (h : Header) (bytes more : List ℕ)
    → h.type ≡ request_packet
    → 10 ≤ length bytes
    → fields h (bytes ++ more) ≡ fields h bytes
unfolding fields
request-append h (c ∷ i0 ∷ i1 ∷ i2 ∷ i3 ∷ t0 ∷ t1 ∷ l0 ∷ l1 ∷ l2 ∷ rest) more e le = rw e
request-append h bytes more e le = absurd (omega arith)

response-append :
    (h : Header) (bytes more : List ℕ)
    → h.type ≡ response_packet
    → 9 ≤ length bytes
    → fields h (bytes ++ more) ≡ fields h bytes
unfolding fields
response-append h (c ∷ i0 ∷ i1 ∷ i2 ∷ i3 ∷ s ∷ l0 ∷ l1 ∷ l2 ∷ rest) more e le = rw e
response-append h bytes more e le = absurd (omega arith)

push-append :
    (h : Header) (bytes more : List ℕ)
    → h.type ≡ push_packet
    → 4 ≤ length bytes
    → fields h (bytes ++ more) ≡ fields h bytes
unfolding fields
push-append h (c ∷ l0 ∷ l1 ∷ l2 ∷ rest) more e le = rw e
push-append h bytes more e le = absurd (omega arith)

fields-append :
    (h : Header) (bytes more : List ℕ)
    → is_unknown_packet h ≡ false
    → remain_len h ≤ length bytes
    → fields h (bytes ++ more) ≡ fields h bytes
unfolding is_unknown_packet remain_len
fields-append h bytes more known le =
    ground
      (arith, request-append h bytes more, response-append h bytes more, push-append h bytes more)

pub remain_len-pos : (h : Header) → 0 < remain_len h
unfolding remain_len
remain_len-pos h = ground arith

pub fields-is_unpacked :
    (h : Header) (bytes : List ℕ) → (fields h bytes).is_unpacked ≡ h.is_unpacked
unfolding fields
fields-is_unpacked h bytes = ground arith

pub fields_unpacked-append :
    (h : Header) (bytes more : List ℕ)
    → is_unknown_packet h ≡ false
    → remain_len h ≤ length bytes
    → fields (record h { is_unpacked = true }) (bytes ++ more)
      ≡ fields (record h { is_unpacked = true }) bytes
unfolding is_unknown_packet remain_len
fields_unpacked-append h bytes more known le =
    fields-append (record h { is_unpacked = true }) bytes more known le

-- The header after its first byte.
abbrev pub begun : ℕ → Header → Header
begun x h = record (set_first_byte x h) { begin_unpack = true }

pub begun-is_unpacked : (x : ℕ) (h : Header) → (begun x h).is_unpacked ≡ h.is_unpacked
unfolding set_first_byte
begun-is_unpacked x h = refl

abbrev pub framing : Framing
framing = record {
  Header = Header;
  is_unpacked = λ h. h.is_unpacked;
  begin_unpack = λ h. h.begin_unpack;
  is_unknown_packet = is_unknown_packet;
  remain_len = remain_len;
  first = begun;
  complete = λ h. fields (record h { is_unpacked = true });
  remain_len-pos = remain_len-pos;
  is_unpacked-first = begun-is_unpacked;
  begin_unpack-first = λ x h. refl;
  is_unpacked-complete = λ h. fields-is_unpacked (record h { is_unpacked = true });
  complete-append = fields_unpacked-append;
}

-- `Header.Unpack` is what a framing makes of it.
pub absorb-framed : (h : Header) (bytes : List ℕ) → absorb h bytes ≡ Framing.absorb framing h bytes
unfolding absorb absorb_rest Framing.absorb Framing.absorb_rest
absorb-framed h [] = refl
absorb-framed h (x ∷ bytes) = refl
