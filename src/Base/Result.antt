-- ===== src/Base/Result.antt =====
-- Go's results: a value, a returned error, or a run-time panic. Slices are lists of bytes.
use openapi_protocol.Base.Tests.{leb, if◌then◌else◌}
use openapi_protocol.Base.Lists.{length, get_elem?, take, drop}
use Prim.Native.Nat.{ℕ, zero, suc, ◌+◌, ◌-◌}
use mathlib.Core.Path.{◌≡◌, refl}
use mathlib.Core.Logic.{◌≢◌}
use mathlib.Core.Path.{◌≡◌, refl}
use mathlib.Core.Logic.{◌≢◌}
use mathlib.Core.Bool.{◌&&◌}
use mathlib.Core.Option.{Option, none, some}
use mathlib.Core.List.{List, [], ◌∷◌}

-- The error values of the packages `protocol`, `v1`, `gzip`, and of the ring buffer's `Read`.
pub data Error : Type 0 where
  unknown_packet body_len_hit_limit invalid_frame : Error
  handshake_len invalid_protocol_version : Error
  key_length_too_long value_length_too_long invalid_metadata_data : Error
  gzip_failed read_failed marshal_failed invalid_codec : Error

pub data Result {ℓ} (A : Type ℓ) : Type ℓ where
  ok : A → Result A
  err : Error → Result A
  panic : Result A

infixl 5 ◌>>=◌
abbrev pub ◌>>=◌ {ℓ κ} : {A : Type ℓ} {B : Type κ} → Result A → (A → Result B) → Result B
ok a >>= f = f a
err e >>= f = err e
panic >>= f = panic

abbrev pub or_panic {ℓ} : {A : Type ℓ} → Option A → Result A
or_panic none = panic
or_panic (some a) = ok a

-- `xs[i]`
abbrev pub index : List ℕ → ℕ → Result ℕ
index xs i = or_panic (get_elem? xs i)

-- `xs[i:j]`. Go allows `j` up to the capacity; here a `j` past the length is a panic too.
abbrev pub slice : List ℕ → ℕ → ℕ → Result (List ℕ)
slice xs i j = if leb i j && leb j (length xs) then ok (take (j - i) (drop i xs)) else panic

-- `copy(xs[i:], bs)`: what does not fit is dropped.
unfoldable pub overwrite : List ℕ → ℕ → List ℕ → List ℕ
overwrite xs i [] = xs
overwrite [] i (b ∷ bs) = []
overwrite (x ∷ xs) zero (b ∷ bs) = b ∷ overwrite xs zero bs
overwrite (x ∷ xs) (suc i) (b ∷ bs) = x ∷ overwrite xs i (b ∷ bs)

-- A write of all of `bs` from index `i` on, as `PutUint32(xs[i:i+4], v)` and `xs[i] = b` make.
unfoldable pub write_at : List ℕ → ℕ → List ℕ → Result (List ℕ)
unfolding overwrite
write_at xs i bs = if leb (i + length bs) (length xs) then ok (overwrite xs i bs) else panic

-- What a call of an `Unpack` method reports: more bytes are needed, it is done, or it failed.
pub data Progress : Type 0 where
  waiting done : Progress
  failed : Error → Progress

-- A successful chain has a successful first step.
pub >>=-eq-ok {ℓ κ} :
    {A : Type ℓ} {B : Type κ} {y : B} (r : Result A) (k : A → Result B)
    → (r >>= k) ≡ ok y
    → (x : A) × (r ≡ ok x) × (k x ≡ ok y)
>>=-eq-ok panic k e = cc
>>=-eq-ok (err u) k e = cc
>>=-eq-ok (ok x) k e = (x, refl, e)

-- A chain does not panic if no step does.
pub >>=-ne-panic {ℓ κ} :
    {A : Type ℓ} {B : Type κ} (m : Result A) (f : A → Result B)
    → m ≢ panic
    → ((a : A) → m ≡ ok a → f a ≢ panic)
    → (m >>= f) ≢ panic
>>=-ne-panic (ok a) f h k = k a refl
>>=-ne-panic (err e) f h k = λ p. cc
>>=-ne-panic panic f h k = λ p. h refl
