-- ===== src/Packet/Pairs.antt =====
-- go/packet.go: the packet's access to the pairs of its metadata, and the constructors that panic. A
-- packet of the model has its metadata, so that the test for nil is left out.
use openapi_protocol.Base.{
  ℕ, ◌≡◌, refl, ap, ◌∙◌, List, [], ◌∷◌, length, not, ◌&&◌, ltb, if◌then◌else◌, bytes_eq, some,
  Bool-cases, inl, inr,
}
use openapi_protocol.Base.Result.{
  Result, Error, ok, err, panic, ◌>>=◌, key_length_too_long, value_length_too_long,
}
use openapi_protocol.Context.{Context}
use openapi_protocol.Metadata.{Entries, Metadata, max_string_length, insert, set, get}
use openapi_protocol.Metadata.Access.{get-set}
use openapi_protocol.Metadata.Values.{marshal_values, unmarshal_values}
use openapi_protocol.Packet.{Packet}
use openapi_protocol.Packet.Build.{
  Encoders, Body, PacketOption, new_request, new_response, new_push,
}

unfoldable pub marshal_metadata : Packet → ℕ → List ℕ
marshal_metadata p max = marshal_values p.metadata max

unfoldable pub status_code : Packet → ℕ
status_code p = p.metadata.status_code

unfoldable pub cmd : Packet → ℕ
cmd p = p.metadata.cmd_code

-- `panic(e)` on an error.
unfoldable pub must : {A : Type 0} → Result A → Result A
must (ok a) = ok a
must (err e) = panic
must panic = panic

module _ {V H A : Type 0} (encoders : Encoders V) where
  unfoldable pub must_new_request :
      Context H A → ℕ → Body V → List PacketOption → Context H A × Result Packet
  must_new_request c code body opts =
      let r = new_request encoders c code body opts in (r.0, must r.1)

  unfoldable pub must_new_response :
      Context H A → ℕ → ℕ → Body V → List PacketOption → Result Packet
  must_new_response c code status body opts = must (new_response encoders c code status body opts)

  unfoldable pub must_new_push : Context H A → ℕ → Body V → List PacketOption → Result Packet
  must_new_push c code body opts = must (new_push encoders c code body opts)

module _ (lower : List ℕ → List ℕ) where
  unfoldable pub unmarshal_metadata : Packet → List ℕ → Result Packet
  unmarshal_metadata p bytes =
      unmarshal_values lower p.metadata bytes >>= λ md. ok (record p { metadata = md })

  -- The error of `Set` is dropped.
  unfoldable pub set_metadata : List ℕ → List ℕ → Packet → Result Packet
  set_metadata k v p = elim (set lower p.metadata k v) [
    | ok md ↦ ok (record p { metadata = md })
    | err e ↦ ok p
    | panic ↦ panic
  ]

  unfoldable pub set_metadata_pairs : List (List ℕ × List ℕ) → Packet → Result Packet
  set_metadata_pairs [] p = ok p
  set_metadata_pairs ((k, v) ∷ pairs) p = set_metadata k v p >>= λ p'. set_metadata_pairs pairs p'

  unfoldable pub get_metadata : Packet → List ℕ → List ℕ
  get_metadata p k = get lower p.metadata k

  -- The value that `old` becomes when a pair is set: a pair whose key or value is too long is left
  -- out, and keys are compared in lower case.
  unfoldable pub set_value : List ℕ → List ℕ → List ℕ → List ℕ → List ℕ
  set_value j k v old =
      if not (ltb max_string_length (length k)) && not (ltb max_string_length (length v))
      then (if bytes_eq (lower k) (lower j) then v else old)
      else old

  unfoldable pub last_value : List ℕ → List (List ℕ × List ℕ) → List ℕ → List ℕ
  last_value j [] old = old
  last_value j ((k, v) ∷ pairs) old = last_value j pairs (set_value j k v old)

  abbrev pub HasValues : Packet → Type 0
  HasValues p = (es : Entries) × (p.metadata.values ≡ some es)

  set_metadata_ok :
      (k v : List ℕ) (p : Packet) (md : Metadata)
      → set lower p.metadata k v ≡ ok md
      → set_metadata k v p ≡ ok (record p { metadata = md })
  unfolding set_metadata
  set_metadata_ok k v p md e = rw (e, set_metadata) refl

  set_metadata_err :
      (k v : List ℕ) (p : Packet) (e : Error)
      → set lower p.metadata k v ≡ err e
      → set_metadata k v p ≡ ok p
  unfolding set_metadata
  set_metadata_err k v p e h = rw (h, set_metadata) refl

  set_metadata_lem :
      (j k v : List ℕ) (p : Packet)
      → HasValues p
      → (p' : Packet) × (set_metadata k v p ≡ ok p')
        × HasValues p'
        × (p'.metadata.request_id ≡ p.metadata.request_id)
        × (get_metadata p' j ≡ set_value j k v (get_metadata p j))
  unfolding set_value get_metadata
  set_metadata_lem j k v p h = elim (Bool-cases (ltb max_string_length (length k))) [
    | inl long ↦
        let failed : set lower p.metadata k v ≡ err key_length_too_long =
          (unfold set in rw long refl) in
        let refused : set_metadata k v p ≡ ok p = set_metadata_err k v p _ failed in
        (p, refused, h, refl, rw long refl)
    | inr fits ↦ elim (Bool-cases (ltb max_string_length (length v))) [
      | inl long ↦
          let failed : set lower p.metadata k v ≡ err value_length_too_long =
            (unfold set in rw (fits, long) refl) in
          let refused : set_metadata k v p ≡ ok p = set_metadata_err k v p _ failed in
          (p, refused, h, refl, rw (fits, long) refl)
      | inr fits' ↦
          let md' : Metadata = record p.metadata { values = some (insert (lower k) v h.0) } in
          let done : set lower p.metadata k v ≡ ok md' =
            (unfold set in rw (fits, fits', h.1) refl) in
          let kept : set_metadata k v p ≡ ok (record p { metadata = md' }) =
            set_metadata_ok k v p md' done in
          (
            record p { metadata = md' },
            kept,
            (insert (lower k) v h.0, refl),
            refl,
            rw (fits, fits') (get-set lower p.metadata md' k v j done),
          )
    ]
  ]

  -- After `SetMetadataPairs` on a packet with a map of values, which never panics, a key reads as the
  -- last pair of the arguments has it whose key is the same in lower case and whose key and value are
  -- not too long, and as before where there is none; the request id is kept.
  pub get_metadata-set_metadata_pairs :
      (j : List ℕ) (pairs : List (List ℕ × List ℕ)) (p : Packet)
      → HasValues p
      → (p' : Packet) × (set_metadata_pairs pairs p ≡ ok p')
        × (p'.metadata.request_id ≡ p.metadata.request_id)
        × (get_metadata p' j ≡ last_value j pairs (get_metadata p j))
  unfolding set_metadata_pairs last_value
  get_metadata-set_metadata_pairs j [] p h = (p, refl, refl, refl)
  get_metadata-set_metadata_pairs j ((k, v) ∷ pairs) p h =
      let one = set_metadata_lem j k v p h in
      let rest = get_metadata-set_metadata_pairs j pairs one.0 one.2 in
      (rest.0, rw one.1 rest.1, rest.2 ∙ one.3, rest.3 ∙ ap (last_value j pairs) one.4)
