-- ===== src/Decoder/Framing.antt =====
-- What the headers of both versions have in common for a decoder: a first byte, a number of further
-- bytes that depends on the first one, and the fields that are read from these. `absorb` is
-- `Header.Unpack` (go/v1/v1_header.go, go/v2/v2_header.go) on the bytes that the buffer holds.
pub mod Resumed
pub mod Stepped
use openapi_protocol.Base.{
  ℕ, ◌≤◌, ◌<◌, ◌≡◌, List, [], ◌∷◌, ◌++◌, length, drop, Bool, true, false, ltb, if◌then◌else◌,
}
use openapi_protocol.Base.Result.{Progress, waiting, done, failed, unknown_packet}

-- `first` is the header after its first byte, `complete` the header that the fields are read into.
pub record Framing : Type 1 where
  pub Header : Type 0
  pub is_unpacked : Header → Bool
  pub begin_unpack : Header → Bool
  pub is_unknown_packet : Header → Bool
  pub remain_len : Header → ℕ
  pub first : ℕ → Header → Header
  pub complete : Header → List ℕ → Header
  pub remain_len-pos : (h : Header) → 0 < remain_len h
  pub is_unpacked-first : (x : ℕ) (h : Header) → is_unpacked (first x h) ≡ is_unpacked h
  pub begin_unpack-first : (x : ℕ) (h : Header) → begin_unpack (first x h) ≡ true
  pub is_unpacked-complete : (h : Header) (bytes : List ℕ) → is_unpacked (complete h bytes) ≡ true
  pub complete-append :
      (h : Header) (bytes more : List ℕ)
      → is_unknown_packet h ≡ false
      → remain_len h ≤ length bytes
      → complete h (bytes ++ more) ≡ complete h bytes

module _ (f : Framing) where
  open f use {Header, is_unpacked, begin_unpack, is_unknown_packet, remain_len, first, complete}

  unfoldable pub absorb_rest : Header → List ℕ → Header × List ℕ × Progress
  absorb_rest h bytes =
      if is_unknown_packet h
      then (h, bytes, failed unknown_packet)
      else if ltb (length bytes) (remain_len h)
      then (h, bytes, waiting)
      else (complete h bytes, drop (remain_len h) bytes, done)

  unfoldable pub absorb : Header → List ℕ → Header × List ℕ × Progress
  absorb h [] = (h, [], waiting)
  absorb h (b ∷ bytes) =
      if is_unpacked h
      then (h, b ∷ bytes, done)
      else if begin_unpack h
      then absorb_rest h (b ∷ bytes)
      else absorb_rest (first b h) bytes
