-- ===== src/Base/Bits.antt =====
-- `&` and `|` on machine words as arithmetic.
use Prim.Native.Nat.{
  ℕ, zero, suc, ◌+◌, ◌*◌, ◌/◌, ◌%◌, ◌^◌, ◌≤◌, ◌<◌, max, min, digits, bit_and, bit_or,
  bit_or-bitwise, bit_and-bitwise,
}
use mathlib.Core.Path.{◌≡◌, refl, ap}
use mathlib.Core.Bool.{Bool, true, ◌&&◌}
use native.Mathlib.Omega.{arith}
use native.Mathlib.Nat.{pow-suc, le_refl}
use openapi_protocol.Base.Tests.{◌==◌, ==_iff}

-- Two functions agree below `n`, checked by evaluation.
pub agree : ℕ → (ℕ → ℕ) → (ℕ → ℕ) → Bool
agree zero f g = true
agree (suc n) f g = (f n == g n) && agree n f g

pub agree_sound : (n : ℕ) (f g : ℕ → ℕ) → agree n f g ≡ true → (x : ℕ) → x < n → f x ≡ g x
unfolding agree
agree_sound zero f g h x lt = absurd (omega arith)
agree_sound (suc n) f g h x lt =
    ground (arith, ==_iff (f n) (g n), agree_sound n f g (ground arith) x)

-- The digits of `|`, with any fuel that covers the left operand.
or_digits_fuel :
    (n m a b : ℕ) → a ≤ n → a ≤ m → digits (λ y. y) max n a b ≡ digits (λ y. y) max m a b
or_digits_fuel zero zero a b p q = refl
or_digits_fuel zero (suc m) zero b p q = refl
or_digits_fuel zero (suc m) (suc a) b p q = absurd (omega arith)
or_digits_fuel (suc n) zero zero b p q = refl
or_digits_fuel (suc n) zero (suc a) b p q = absurd (omega arith)
or_digits_fuel (suc n) (suc m) zero b p q = refl
or_digits_fuel (suc n) (suc m) (suc a) b p q =
    rw (or_digits_fuel n m (suc a / 2) (b / 2) (omega arith) (omega arith))

bit_or_low : (a b : ℕ) → bit_or a b ≡ bit_or (a / 2) (b / 2) * 2 + max (a % 2) (b % 2)
bit_or_low zero b = simp bit_or-bitwise (omega arith)
bit_or_low (suc a) b =
    simp bit_or-bitwise
      (omega (arith, or_digits_fuel a (suc a / 2) (suc a / 2) (b / 2) (omega arith) (le_refl _)))

bit_or_nil : (n a : ℕ) → a ≤ n → bit_or a 0 ≡ a
bit_or_nil zero zero h = refl
bit_or_nil zero (suc a) h = absurd (omega arith)
bit_or_nil (suc n) zero h = refl
bit_or_nil (suc n) (suc a) h =
    omega (arith, bit_or_low (suc a) 0, bit_or_nil n (suc a / 2) (omega arith))

-- `q << k | r` where `r` has at most `k` bits.
pub bit_or_join : (k q r : ℕ) → r < 2 ^ k → bit_or (q * 2 ^ k) r ≡ q * 2 ^ k + r
bit_or_join zero q r h = ground (arith, bit_or_nil q q (le_refl _))
bit_or_join (suc k) q r h = ground (
  arith,
  bit_or_low (q * 2 ^ suc k) r,
  ap (λ (t : ℕ). q * t) (pow-suc 2 k),
  bit_or_join k q (r / 2) (omega arith),
)

-- Masks on a byte, each a table of 256 entries.
abbrev ByteEq : (ℕ → ℕ) → (ℕ → ℕ) → Type 0
ByteEq f g = (x : ℕ) → x < 2 ^ 8 → f x ≡ g x

pub bit_and-15 : ByteEq (bit_and 0xf) (λ x. x % 2 ^ 4)
unfolding agree
bit_and-15 = agree_sound 256 _ _ refl

pub and_15 : ByteEq (λ x. bit_and x 0xf) (λ x. x % 2 ^ 4)
unfolding agree
and_15 = agree_sound 256 _ _ refl

pub and_3 : ByteEq (λ x. bit_and x 0x3) (λ x. x % 2 ^ 2)
unfolding agree
and_3 = agree_sound 256 _ _ refl

pub and_1 : ByteEq (λ x. bit_and x 0x1) (λ x. x % 2)
unfolding agree
and_1 = agree_sound 256 _ _ refl

pub bit_and-240 : ByteEq (λ x. bit_and 0xf0 x / 2 ^ 4) (λ x. x / 2 ^ 4)
unfolding agree
bit_and-240 = agree_sound 256 _ _ refl

pub and_127 : ByteEq (λ x. bit_and x 0x7f) (λ x. x % 2 ^ 7)
unfolding agree
and_127 = agree_sound 256 _ _ refl

pub and_128 : ByteEq (λ x. bit_and x 0x80) (λ x. x / 2 ^ 7 * 2 ^ 7)
unfolding agree
and_128 = agree_sound 256 _ _ refl

pub or_128 : (x : ℕ) → x < 2 ^ 7 → bit_or x 0x80 ≡ x + 2 ^ 7
unfolding agree
or_128 = agree_sound 128 _ _ refl

-- Two nibbles, the high one shifted in eight bits.
nibbles_table : ByteEq (λ x. bit_or (x % 2 ^ 4) (x / 2 ^ 4 * 2 ^ 4 % 2 ^ 8)) (λ x. x)
unfolding agree
nibbles_table = agree_sound 256 _ _ refl

pub nibbles :
    (lo hi : ℕ) → lo < 2 ^ 4 → hi < 2 ^ 4 → bit_or lo (hi * 2 ^ 4 % 2 ^ 8) ≡ hi * 2 ^ 4 + lo
nibbles lo hi hl hh =
    let x = hi * 2 ^ 4 + lo in
    let el : x % 2 ^ 4 ≡ lo = omega arith in
    let eh : x / 2 ^ 4 ≡ hi = omega arith in rw (el, eh) at (nibbles_table x (omega arith))

-- The four fields of a packet's first byte.
abbrev pub or_flags : ℕ → ℕ → ℕ → ℕ → ℕ
or_flags t v g r =
    bit_or (bit_or (bit_or t (v * 2 ^ 4 % 2 ^ 8)) (g * 2 ^ 5 % 2 ^ 8)) (r * 2 ^ 6 % 2 ^ 8)

flags_table :
    ByteEq (λ x. or_flags (x % 2 ^ 4) (x / 2 ^ 4 % 2) (x / 2 ^ 5 % 2) (x / 2 ^ 6 % 4)) (λ x. x)
unfolding agree
flags_table = agree_sound 256 _ _ refl

pub or_flags_sum :
    (t v g r : ℕ)
    → t < 2 ^ 4
    → v < 2
    → g < 2
    → r < 4
    → or_flags t v g r ≡ t + v * 2 ^ 4 + g * 2 ^ 5 + r * 2 ^ 6
or_flags_sum t v g r ht hv hg hr =
    let x = t + v * 2 ^ 4 + g * 2 ^ 5 + r * 2 ^ 6 in
    let et : x % 2 ^ 4 ≡ t = omega arith in
    let ev : x / 2 ^ 4 % 2 ≡ v = omega arith in
    let eg : x / 2 ^ 5 % 2 ≡ g = omega arith in
    let er : x / 2 ^ 6 % 4 ≡ r = omega arith in rw (et, ev, eg, er) at (flags_table x (omega arith))

-- `&` with a mask of `k` ones.
and_rounds : (k a j c : ℕ) → a ≤ k → a ≤ j → digits (λ y. 0) min k a c ≡ digits (λ y. 0) min j a c
and_rounds zero (suc a) j c hk hj = absurd (omega arith)
and_rounds (suc k) (suc a) zero c hk hj = absurd (omega arith)
and_rounds (suc k) (suc a) (suc j) c hk hj =
    rw (and_rounds k (suc a / 2) j (c / 2) (omega arith) (omega arith))
and_rounds zero zero zero c hk hj = refl
and_rounds zero zero (suc j) c hk hj = refl
and_rounds (suc k) zero zero c hk hj = refl
and_rounds (suc k) zero (suc j) c hk hj = refl

bit_and_low : (a b : ℕ) → bit_and a b ≡ bit_and (a / 2) (b / 2) * 2 + min (a % 2) (b % 2)
bit_and_low zero b = simp bit_and-bitwise (omega arith)
bit_and_low (suc a) b =
    simp bit_and-bitwise
      (omega (arith, and_rounds a (suc a / 2) (suc a / 2) (b / 2) (omega arith) (le_refl _)))

bit_and_nil : (n a : ℕ) → a ≤ n → bit_and a 0 ≡ 0
bit_and_nil zero zero h = refl
bit_and_nil zero (suc a) h = absurd (omega arith)
bit_and_nil (suc n) zero h = refl
bit_and_nil (suc n) (suc a) h =
    omega (arith, bit_and_low (suc a) 0, bit_and_nil n (suc a / 2) (omega arith))

and_nibble : (a : ℕ) → bit_and a 0xf ≡ a % 2 ^ 4
and_nibble a = omega (
  arith,
  bit_and_low a 0xf,
  bit_and_low (a / 2) 0x7,
  bit_and_low (a / 2 / 2) 0x3,
  bit_and_low (a / 2 / 2 / 2) 0x1,
  bit_and_nil (a / 2 / 2 / 2 / 2) (a / 2 / 2 / 2 / 2) (le_refl _),
)

pub and_255 : (a : ℕ) → bit_and a 0xff ≡ a % 2 ^ 8
and_255 a = omega (
  arith,
  bit_and_low a 0xff,
  bit_and_low (a / 2) 0x7f,
  bit_and_low (a / 2 / 2) 0x3f,
  bit_and_low (a / 2 / 2 / 2) 0x1f,
  and_nibble (a / 2 / 2 / 2 / 2),
)
