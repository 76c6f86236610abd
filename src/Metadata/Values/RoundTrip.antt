-- ===== src/Metadata/Values/RoundTrip.antt =====
-- What `UnmarshalValues` makes of the bytes of `MarshalValues`, and of any other bytes.
use openapi_protocol.Base.{
  ℕ, zero, suc, ◌+◌, ◌≤◌, ◌≡◌, ◌≢◌, refl, sym, ap, ◌∙◌, arith, List, [], ◌∷◌, ◌++◌, append-nil,
  append_assoc, length, true, false, ltb, All, bytes_eq, some, Bool-cases, inl, inr,
}
use openapi_protocol.Base.Result.{ok, panic, >>=-ne-panic}
use openapi_protocol.Metadata.{Entries, Metadata, max_15bit_length, insert}
use openapi_protocol.Metadata.Strings.{
  encoded, get_string, get_string-encoded, get_string-ne-panic, get_string_takes,
}
use openapi_protocol.Metadata.Values.{unmarshal_loop, unmarshal_values, marshal_values}
use openapi_protocol.Metadata.Values.Kept.{
  sendable, pair_size, kept, encode_entries, entries, AllSendable, All-kept, kept-AllSendable,
  marshal_values-kept,
}

-- No pair of `es` has the key.
abbrev pub Fresh : List ℕ → Entries → Type 0
Fresh key es = All (λ e. bytes_eq e.0 key ≡ false) es

-- Every key differs from those before it.
abbrev pub Distinct : Entries → Type 0
Distinct [] = Unit {0}
Distinct ((key, val) ∷ es) = All (λ e. bytes_eq key e.0 ≡ false) es × Distinct es

abbrev FreshAll : Entries → Entries → Type 0
FreshAll es acc = All (λ e. Fresh e.0 acc) es

insert-Fresh :
    (key val : List ℕ) (es : Entries) → Fresh key es → insert key val es ≡ es ++ ((key, val) ∷ [])
unfolding insert
insert-Fresh key val [] h = refl
insert-Fresh key val ((j, w) ∷ es) h = rw h.0 (ap (◌∷◌ (j, w)) (insert-Fresh key val es h.1))

Fresh-append :
    (k key val : List ℕ) (acc : Entries)
    → Fresh k acc
    → bytes_eq key k ≡ false
    → Fresh k (acc ++ ((key, val) ∷ []))
Fresh-append k key val [] h ne = (ne, tt)
Fresh-append k key val (e ∷ acc) h ne = (h.0, Fresh-append k key val acc h.1 ne)

FreshAll-append :
    (key val : List ℕ) (es acc : Entries)
    → FreshAll es acc
    → All (λ e. bytes_eq key e.0 ≡ false) es
    → FreshAll es (acc ++ ((key, val) ∷ []))
FreshAll-append key val [] acc h ne = tt
FreshAll-append key val (e ∷ es) acc h ne =
    (Fresh-append e.0 key val acc h.0 ne.0, FreshAll-append key val es acc h.1 ne.1)

FreshAll-nil : (es : Entries) → FreshAll es []
FreshAll-nil [] = tt
FreshAll-nil (e ∷ es) = (tt, FreshAll-nil es)

Distinct-kept : (max used : ℕ) (es : Entries) → Distinct es → Distinct (kept max used es)
unfolding kept
Distinct-kept max used [] h = h
Distinct-kept max used ((key, val) ∷ es) h = elim (Bool-cases (sendable key val)) [
  | inr e ↦ rw e (Distinct-kept max used es h.1)
  | inl e ↦ elim (Bool-cases (ltb max (pair_size key val + used))) [
    | inl full ↦ rw (e, full) tt
    | inr room ↦
        let used' = used + pair_size key val in
        rw (e, room)
          (
            All-kept (λ e. bytes_eq key e.0 ≡ false) max used' es h.0,
            Distinct-kept max used' es h.1,
          )
  ]
]

sendable_fits :
    (key val : List ℕ)
    → sendable key val ≡ true
    → (length key ≤ max_15bit_length) × (length val ≤ max_15bit_length)
unfolding sendable
sendable_fits key val h = ground arith

module _ (lower : List ℕ → List ℕ) where
  abbrev pub Lowered : Entries → Type 0
  Lowered es = All (λ e. lower e.0 ≡ e.0) es

  loop_step :
      (fuel : ℕ) (bytes : List ℕ) (es : Entries) {key val mid rest : List ℕ}
      → get_string bytes ≡ ok (key, mid)
      → get_string mid ≡ ok (val, rest)
      → unmarshal_loop lower (suc fuel) bytes es
        ≡ unmarshal_loop lower fuel rest (insert (lower key) val es)
  unfolding unmarshal_loop
  loop_step fuel [] es h k = unfold get_string in cc
  loop_step fuel (b ∷ bytes) es h k = rw (h, k) refl

  loop-encode :
      (es : Entries) (fuel : ℕ) (acc : Entries)
      → AllSendable es
      → Lowered es
      → Distinct es
      → FreshAll es acc
      → length (encode_entries es) ≤ fuel
      → unmarshal_loop lower fuel (encode_entries es) acc ≡ ok (acc ++ es)
  unfolding encode_entries
  loop-encode [] fuel acc s l d f le = unfold unmarshal_loop in ap ok (sym (append-nil acc))
  loop-encode ((key, val) ∷ es) fuel acc s l d f le =
      let fits = sendable_fits key val s.0 in
      let rest = encoded val ++ encode_entries es in
      let get_key = get_string-encoded key rest fits.0 in
      let get_val = get_string-encoded val (encode_entries es) fits.1 in
      let shorter = get_string_takes _ key rest get_key in
      let shorter' = get_string_takes _ val (encode_entries es) get_val in
      let acc' = acc ++ ((key, val) ∷ []) in
      let more : (k : ℕ)
          → length (encode_entries es) ≤ k
          → unmarshal_loop lower k (encode_entries es) (insert (lower key) val acc)
            ≡ ok (acc ++ ((key, val) ∷ es)) =
        λ k lek.
          rw (l.0, insert-Fresh key val acc f.0)
            (loop-encode es k acc' s.1 l.1 d.1 (FreshAll-append key val es acc f.1 d.0) lek
              ∙ ap ok (append_assoc acc ((key, val) ∷ []) es)) in
      elim fuel
          as (λ n.
            length (encoded key ++ rest) ≤ n
            → unmarshal_loop lower n (encoded key ++ rest) acc ≡ ok (acc ++ ((key, val) ∷ es))) [
              | zero ↦ λ h. absurd (omega arith)
              | suc k ↦ λ h. loop_step k _ acc get_key get_val ∙ more k (omega arith)
            ]
        le

  unmarshal-encode :
      (md : Metadata) (es : Entries)
      → AllSendable es
      → Lowered es
      → Distinct es
      → unmarshal_values lower md (encode_entries es) ≡ ok (record md { values = some es })
  unfolding unmarshal_values encode_entries
  unmarshal-encode md [] s l d = refl
  unmarshal-encode md ((key, val) ∷ es) s l d =
      let fits = sendable_fits key val s.0 in
      let rest = encoded val ++ encode_entries es in
      let shorter = get_string_takes _ key rest (get_string-encoded key rest fits.0) in
      let shorter' =
        get_string_takes _ val (encode_entries es)
          (get_string-encoded val (encode_entries es) fits.1) in
      let bytes = encoded key ++ rest in
      ground (
        arith,
        loop-encode ((key, val) ∷ es) (length bytes) [] s l d (FreshAll-nil ((key, val) ∷ es)),
      )

  -- For a map with distinct keys that are in lower case, `UnmarshalValues` makes of the bytes of
  -- `MarshalValues` exactly the pairs that were kept.
  pub unmarshal-marshal :
      (md to : Metadata) (max : ℕ)
      → Lowered (entries md)
      → Distinct (entries md)
      → unmarshal_values lower to (marshal_values md max)
        ≡ ok (record to { values = some (kept max 0 (entries md)) })
  unmarshal-marshal md to max l d = rw (marshal_values-kept md max) (
      unmarshal-encode to (kept max 0 (entries md)) (kept-AllSendable max 0 (entries md))
        (All-kept (λ e. lower e.0 ≡ e.0) max 0 (entries md) l) (Distinct-kept max 0 (entries md) d))

  loop-ne-panic :
      (fuel : ℕ) (bytes : List ℕ) (es : Entries)
      → length bytes ≤ fuel
      → unmarshal_loop lower fuel bytes es ≢ panic
  unfolding unmarshal_loop
  loop-ne-panic fuel [] es le = λ e. cc
  loop-ne-panic zero (b ∷ bytes) es le = absurd (omega arith)
  loop-ne-panic (suc fuel) (b ∷ bytes) es le =
      >>=-ne-panic (get_string (b ∷ bytes)) _ (get_string-ne-panic (b ∷ bytes)) λ (key, mid) h.
        >>=-ne-panic (get_string mid) _ (get_string-ne-panic mid) λ (val, rest) k.
          loop-ne-panic fuel rest (insert (lower key) val es)
            (omega (arith, get_string_takes (b ∷ bytes) key mid h, get_string_takes mid val rest k))

  -- No bytes make `UnmarshalValues` panic or run for ever: it returns metadata or an error.
  pub unmarshal_values-ne-panic :
      (md : Metadata) (bytes : List ℕ) → unmarshal_values lower md bytes ≢ panic
  unfolding unmarshal_values
  unmarshal_values-ne-panic md bytes = ground (arith, loop-ne-panic (length bytes) bytes [])
