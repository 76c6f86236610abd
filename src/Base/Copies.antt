-- ===== src/Base/Copies.antt =====
-- A buffer that is filled from the front, copy after copy.
use openapi_protocol.Base.Lists.{
  length, length-append, length-drop, replicate, take, drop, take_all,
}
use openapi_protocol.Base.Result.{overwrite, write_at, ok, ◌>>=◌}
use openapi_protocol.Base.Tests.{le→leb}
use Prim.Native.Nat.{ℕ, zero, suc, ◌+◌, ◌-◌, ◌≤◌}
use mathlib.Core.Path.{◌≡◌, refl, ap, ◌∙◌, sym}
use mathlib.Core.List.{List, [], ◌∷◌, ◌++◌, append_assoc}
use native.Mathlib.Omega.{arith}

abbrev pub zeros : ℕ → List ℕ
zeros n = replicate n 0

overwrite_front :
    (zs src : List ℕ) → overwrite zs 0 src ≡ take (length zs) src ++ drop (length src) zs
unfolding overwrite
overwrite_front [] [] = refl
overwrite_front [] (b ∷ src) = refl
overwrite_front (z ∷ zs) [] = refl
overwrite_front (z ∷ zs) (b ∷ src) = ap (◌∷◌ b) (overwrite_front zs src)

-- A copy to where the filled part ends keeps that part and goes on as far as there is room.
pub overwrite-append :
    (pre zs src : List ℕ)
    → overwrite (pre ++ zs) (length pre) src ≡ pre ++ (take (length zs) src ++ drop (length src) zs)
unfolding overwrite
overwrite-append [] zs src = overwrite_front zs src
overwrite-append (x ∷ pre) zs [] = rw (take_all {A = ℕ} (length zs) [] (omega arith)) refl
overwrite-append (x ∷ pre) zs (b ∷ src) = ap (◌∷◌ x) (overwrite-append pre zs (b ∷ src))

drop-replicate : (k n : ℕ) → drop k (zeros n) ≡ zeros (n - k)
drop-replicate zero n = ap (λ (m : ℕ). zeros m) (omega arith)
drop-replicate (suc k) zero = ap (λ (m : ℕ). zeros m) {x = 0} (omega arith)
drop-replicate (suc k) (suc n) = drop-replicate k n ∙ ap (λ (m : ℕ). zeros m) (omega arith)

pub length-zeros : (n : ℕ) → length (zeros n) ≡ n
length-zeros zero = refl
length-zeros (suc n) = ap suc (length-zeros n)

-- A copy that fits into the zeros behind the filled part.
pub overwrite-zeros :
    (pre src : List ℕ) (n : ℕ)
    → length src ≤ n
    → overwrite (pre ++ zeros n) (length pre) src ≡ pre ++ (src ++ zeros (n - length src))
overwrite-zeros pre src n h =
    overwrite-append pre (zeros n) src
    ∙ rw
        (
          take_all (length (zeros n)) src (omega (arith, length-zeros n)),
          drop-replicate (length src) n,
        )
        refl

-- A copy of any length into them: it is cut to the room that there is.
pub overwrite-zeros_cut :
    (pre src : List ℕ) (n : ℕ)
    → overwrite (pre ++ zeros n) (length pre) src ≡ pre ++ (take n src ++ zeros (n - length src))
overwrite-zeros_cut pre src n =
    overwrite-append pre (zeros n) src ∙ rw (length-zeros n, drop-replicate (length src) n) refl

-- Two copies into zeros that they fit with `n` to spare.
pub overwrite_two :
    (xs ys : List ℕ) (l n : ℕ)
    → l ≡ length xs + length ys + n
    → overwrite (overwrite (zeros l) 0 xs) (length xs) ys ≡ (xs ++ ys) ++ zeros n
overwrite_two xs ys l n e =
    ap (λ (bytes : List ℕ). overwrite bytes (length xs) ys) (overwrite-zeros [] xs l (omega arith))
    ∙ overwrite-zeros xs ys (l - length xs) (omega arith)
    ∙ sym (append_assoc xs ys (zeros (l - length xs - length ys)))
    ∙ ap (λ (k : ℕ). (xs ++ ys) ++ zeros k) (omega arith)

-- A third copy behind them.
pub overwrite_three :
    (xs ys zs : List ℕ) (l n : ℕ)
    → l ≡ length xs + length ys + length zs + n
    → overwrite (overwrite (overwrite (zeros l) 0 xs) (length xs) ys) (length xs + length ys) zs
      ≡ (xs ++ (ys ++ zs)) ++ zeros n
overwrite_three xs ys zs l n e =
    ap (λ (bytes : List ℕ). overwrite bytes (length xs + length ys) zs)
      (overwrite_two xs ys l (length zs + n) (omega arith))
    ∙ ap (λ (i : ℕ). overwrite ((xs ++ ys) ++ zeros (length zs + n)) i zs)
        (sym (length-append xs ys))
    ∙ overwrite-zeros (xs ++ ys) zs (length zs + n) (omega arith)
    ∙ ap (λ (k : ℕ). (xs ++ ys) ++ (zs ++ zeros k)) (omega arith)
    ∙ sym (append_assoc (xs ++ ys) zs (zeros n))
    ∙ ap (λ (bytes : List ℕ). bytes ++ zeros n) (append_assoc xs ys zs)

-- A nonce of 8 bytes and a signature that is cut to the room there is, written over the bytes from
-- an index on.
pub signed_over :
    (pre zs nonce signature : List ℕ) (i : ℕ)
    → length nonce ≡ 8
    → 8 ≤ length zs
    → i ≡ length pre
    → (write_at (pre ++ zs) i nonce >>= λ bytes. ok (overwrite bytes (i + 8) signature))
      ≡ ok (
          pre ++ (nonce ++ (take (length zs - 8) signature ++ drop (length signature) (drop 8 zs))))
unfolding write_at
signed_over pre zs nonce signature i e8 room e =
    let here : i + 8 ≡ length (pre ++ nonce) = omega (arith, length-append pre nonce) in
    let left : length (drop 8 zs) ≡ length zs - 8 = length-drop 8 zs in
    rw
      (
        le→leb (i + length nonce) (length (pre ++ zs)) (omega (arith, length-append pre zs)),
        here,
        e,
        overwrite-append pre zs nonce,
        take_all (length zs) nonce (omega arith),
        e8,
        ← append_assoc pre nonce (drop 8 zs),
        overwrite-append (pre ++ nonce) (drop 8 zs) signature,
        left,
        append_assoc pre nonce
            (take (length zs - 8) signature ++ drop (length signature) (drop 8 zs)),
      )
      refl

-- The same into the last 24 bytes.
pub signed_fill :
    (pre nonce signature : List ℕ) (i : ℕ)
    → length nonce ≡ 8
    → i ≡ length pre
    → (write_at (pre ++ zeros 24) i nonce >>= λ bytes. ok (overwrite bytes (i + 8) signature))
      ≡ ok (pre ++ (nonce ++ (take 16 signature ++ zeros (16 - length signature))))
signed_fill pre nonce signature i e8 e =
    signed_over pre (zeros 24) nonce signature i e8 (omega arith) e
    ∙ rw (drop-replicate (length signature) 16) refl
