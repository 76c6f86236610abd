-- ===== src/Base/Bytes.antt =====
-- Bytes and big-endian words (`encoding/binary`).
use openapi_protocol.Base.Bits.{bit_or_join}
use Prim.Native.Nat.{ℕ, ◌+◌, ◌*◌, ◌/◌, ◌%◌, ◌^◌, ◌<◌, bit_or}
use mathlib.Core.Path.{◌≡◌}
use mathlib.Core.List.{List, [], ◌∷◌}
use native.Mathlib.Omega.{arith}

abbrev pub IsByte : ℕ → Type 0
IsByte b = b < 2 ^ 8

abbrev pub IsU16 : ℕ → Type 0
IsU16 v = v < 2 ^ 16

abbrev pub IsU32 : ℕ → Type 0
IsU32 v = v < 2 ^ 32

abbrev pub IsU64 : ℕ → Type 0
IsU64 v = v < 2 ^ 64

-- `BigEndian.Uint16`, `Uint32` and `Uint64`, by the length of the slice.
unfoldable pub be_uint : List ℕ → ℕ → ℕ
be_uint [] acc = acc
be_uint (b ∷ bs) acc = be_uint bs (acc * 2 ^ 8 + b)

abbrev pub uint : List ℕ → ℕ
uint bs = be_uint bs 0

-- `BigEndian.PutUint16`, `PutUint32` and `PutUint64`: the bytes stored.
abbrev pub put_uint16 : ℕ → List ℕ
put_uint16 v = (v / 2 ^ 8 % 2 ^ 8) ∷ (v % 2 ^ 8) ∷ []

abbrev pub put_uint32 : ℕ → List ℕ
put_uint32 v = (v / 2 ^ 24 % 2 ^ 8) ∷ (v / 2 ^ 16 % 2 ^ 8) ∷ put_uint16 v

abbrev pub put_uint64 : ℕ → List ℕ
put_uint64 v =
    (v / 2 ^ 56 % 2 ^ 8)
    ∷ (v / 2 ^ 48 % 2 ^ 8)
    ∷ (v / 2 ^ 40 % 2 ^ 8)
    ∷ (v / 2 ^ 32 % 2 ^ 8)
    ∷ put_uint32 v

pub uint-put_uint16 : (v : ℕ) → IsU16 v → uint (put_uint16 v) ≡ v
unfolding be_uint
uint-put_uint16 v h = omega arith

pub uint-put_uint32 : (v : ℕ) → IsU32 v → uint (put_uint32 v) ≡ v
unfolding be_uint
uint-put_uint32 v h = omega arith

pub uint-put_uint64 : (v : ℕ) → IsU64 v → uint (put_uint64 v) ≡ v
unfolding be_uint
uint-put_uint64 v h = omega arith

-- The 24-bit lengths: `uint32(fb)<<16 | uint32(sb)<<8 | uint32(tb)`, and the bytes of one.
abbrev pub join24 : ℕ → ℕ → ℕ → ℕ
join24 fb sb tb = bit_or (bit_or (fb * 2 ^ 16 % 2 ^ 32) (sb * 2 ^ 8 % 2 ^ 32)) tb

abbrev pub split24 : ℕ → List ℕ
split24 v = (v / 2 ^ 16 % 2 ^ 8) ∷ (v / 2 ^ 8 % 2 ^ 8) ∷ (v % 2 ^ 8) ∷ []

pub join24_sum :
    (fb sb tb : ℕ)
    → IsByte fb
    → IsByte sb
    → IsByte tb
    → join24 fb sb tb ≡ fb * 2 ^ 16 + sb * 2 ^ 8 + tb
join24_sum fb sb tb hf hs ht = ground (
  arith,
  bit_or_join 16 fb (sb * 2 ^ 8) (omega arith),
  bit_or_join 8 (fb * 2 ^ 8 + sb) tb (omega arith),
)
