-- ===== src/Protocol/Registry.antt =====
-- go/protocol.go: the map `manager` from versions to protocols. `P` is the interface `Protocol`;
-- a version with no entry reads as nil.
use openapi_protocol.Base.{ℕ, ◌≡◌, refl, arith, List, [], ◌∷◌, ◌==◌, if◌then◌else◌}
use openapi_protocol.Base.Result.{Result, ok, err, invalid_protocol_version}

module _ {ℓ} {P : Type ℓ} where
  pub register : ℕ → P → List (ℕ × P) → List (ℕ × P)
  register v p [] = (v, p) ∷ []
  register v p ((w, q) ∷ m) = if w == v then (v, p) ∷ m else (w, q) ∷ register v p m

  pub get_protocol : ℕ → List (ℕ × P) → Result P
  get_protocol v [] = err invalid_protocol_version
  get_protocol v ((w, q) ∷ m) = if w == v then ok q else get_protocol v m

  -- After a registration its version gives the new protocol, and every other version what it gave
  -- before.
  pub get_protocol-register :
      (v w : ℕ) (p : P) (m : List (ℕ × P))
      → get_protocol w (register v p m) ≡ (if v == w then ok p else get_protocol w m)
  unfolding register get_protocol
  get_protocol-register v w p [] = refl
  get_protocol-register v w p ((u, q) ∷ m) = ground (arith, get_protocol-register v w p m)
