-- ===== src/Metadata/Access.antt =====
-- `Metadata.Set` and `Metadata.Get` against one another, and what `Set` keeps of the map.
use openapi_protocol.Base.{
  ℕ, ◌≡◌, refl, arith, List, [], ◌∷◌, false, if◌then◌else◌, bytes_eq, bytes_eq_refl, bytes_eq→eq,
  Bool-cases, inl, inr,
}
use openapi_protocol.Base.Result.{ok}
use openapi_protocol.Metadata.{Entries, Metadata, insert, lookup, set, get}
use openapi_protocol.Metadata.Values.Kept.{entries}

pub lookup-insert :
    (key j val : List ℕ) (es : Entries)
    → lookup j (insert key val es) ≡ (if bytes_eq key j then val else lookup j es)
unfolding lookup insert
lookup-insert key j val [] = refl
lookup-insert key j val ((i, w) ∷ es) = elim (Bool-cases (bytes_eq i key)) [
  | inl e ↦
      let same : i ≡ key = bytes_eq→eq i key e in
      elim (Bool-cases (bytes_eq key j)) [
        | inl k ↦ rw (same, bytes_eq_refl key, k) refl
        | inr k ↦ rw (same, bytes_eq_refl key, k) refl
      ]
  | inr ne ↦ elim (Bool-cases (bytes_eq i j)) [
    | inl k ↦
        let apart : bytes_eq key j ≡ false = elim (Bool-cases (bytes_eq key j)) [
          | inl p ↦ cc (bytes_eq→eq i j k, bytes_eq→eq key j p, bytes_eq_refl i)
          | inr p ↦ p
        ] in
        rw (ne, k, apart) refl
    | inr k ↦ rw (ne, k) (lookup-insert key j val es)
  ]
]

module _ (lower : List ℕ → List ℕ) where
  -- After a successful `Set` the key, in any case of its letters, reads as the new value, and every
  -- other key as before.
  pub get-set :
      (md md' : Metadata) (key val j : List ℕ)
      → set lower md key val ≡ ok md'
      → get lower md' j ≡ (if bytes_eq (lower key) (lower j) then val else get lower md j)
  unfolding set get
  get-set md md' key val j h = ground (arith, lookup-insert (lower key) (lower j) val (entries md))
