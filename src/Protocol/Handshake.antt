-- ===== src/Protocol/Handshake.antt =====
-- go/protocol.go: `Handshake`, its two bytes and back. All fields are uint8.
use openapi_protocol.Base.{
  ℕ, ◌+◌, ◌*◌, ◌/◌, ◌%◌, ◌^◌, ◌<◌, ◌≡◌, arith, bit_and, bit_or, List, [], ◌∷◌, length, not, ◌==◌,
  if◌then◌else◌,
}
use openapi_protocol.Base.Result.{Result, ok, err, handshake_len, ◌>>=◌, index}
use openapi_protocol.Base.Bytes.{IsByte}
use openapi_protocol.Base.Bits.{nibbles, bit_and-15, bit_and-240}

pub record Handshake : Type 0 where
  pub version : ℕ
  pub codec : ℕ
  pub platform : ℕ
  pub reserve : ℕ

abbrev version_mask : ℕ
version_mask = 0xf

abbrev codec_mask : ℕ
codec_mask = 0xf0

abbrev platform_mask : ℕ
platform_mask = 0xf

abbrev reserve_mask : ℕ
reserve_mask = 0xf0

-- The shifts are of uint8 values, so they drop what passes eight bits.
unfoldable pub pack : Handshake → List ℕ
pack h =
    let fb = bit_or h.version (h.codec * 2 ^ 4 % 2 ^ 8) in
    let sb = bit_or h.platform (h.reserve * 2 ^ 4 % 2 ^ 8) in fb ∷ sb ∷ []

-- Every field is written, so the handshake that `Unpack` is called on does not matter.
unfoldable pub unpack : List ℕ → Result Handshake
unpack data' = if not (length data' == 2) then err handshake_len else do
  fb ← index data' 0
  sb ← index data' 1
  ok (record {
    version = bit_and version_mask fb;
    codec = bit_and codec_mask fb / 2 ^ 4;
    platform = bit_and platform_mask sb;
    reserve = bit_and reserve_mask sb / 2 ^ 4;
  })

-- Every field fits its four bits.
pub record IsValid (h : Handshake) : Type 0 where
  pub version_fits : h.version < 2 ^ 4
  pub codec_fits : h.codec < 2 ^ 4
  pub platform_fits : h.platform < 2 ^ 4
  pub reserve_fits : h.reserve < 2 ^ 4

-- A handshake whose fields fit four bits each is read back from the two bytes that it packs to.
pub unpack-pack : (h : Handshake) → IsValid h → unpack (pack h) ≡ ok h
unfolding pack unpack
unpack-pack h v = ground (
  arith,
  nibbles h.version h.codec,
  nibbles h.platform h.reserve,
  bit_and-15 (h.codec * 2 ^ 4 + h.version),
  bit_and-240 (h.codec * 2 ^ 4 + h.version),
  bit_and-15 (h.reserve * 2 ^ 4 + h.platform),
  bit_and-240 (h.reserve * 2 ^ 4 + h.platform),
)

unpack_two :
    (fb sb : ℕ)
    → IsByte fb
    → IsByte sb
    → unpack (fb ∷ sb ∷ [])
      ≡ ok (record {
        version = fb % 2 ^ 4;
        codec = fb / 2 ^ 4;
        platform = sb % 2 ^ 4;
        reserve = sb / 2 ^ 4;
      })
unfolding unpack
unpack_two fb sb hf hs =
    ground (arith, bit_and-15 fb, bit_and-240 fb, bit_and-15 sb, bit_and-240 sb)

-- `Unpack` accepts any two bytes, with fields that fit four bits and pack to the same bytes.
pub pack-unpack :
    (fb sb : ℕ)
    → IsByte fb
    → IsByte sb
    → (h : Handshake) × (unpack (fb ∷ sb ∷ []) ≡ ok h) × IsValid h × (pack h ≡ fb ∷ sb ∷ [])
unfolding pack
pack-unpack fb sb hf hs = (
  record { version = fb % 2 ^ 4; codec = fb / 2 ^ 4; platform = sb % 2 ^ 4; reserve = sb / 2 ^ 4 },
  unpack_two fb sb hf hs,
  omega arith,
  ground (arith, nibbles (fb % 2 ^ 4) (fb / 2 ^ 4), nibbles (sb % 2 ^ 4) (sb / 2 ^ 4)),
)
