-- ===== src/Metadata/Values/Kept.antt =====
-- Which pairs `MarshalValues` sends, without reference to bytes, and that it sends these.
use openapi_protocol.Base.{
  ℕ, ◌+◌, ◌≤◌, ◌≡◌, refl, sym, ◌∙◌, arith, List, [], ◌∷◌, ◌++◌, append-nil, append_assoc, length,
  length-append, Bool, true, false, ltb, leb, ◌==◌, if◌then◌else◌, All, Option, none, some,
  Bool-cases, inl, inr,
}
use openapi_protocol.Metadata.{Entries, Metadata, max_15bit_length}
use openapi_protocol.Metadata.Strings.{encoded, marshal_string_lem}
use openapi_protocol.Metadata.Values.{marshal_loop, marshal_values}

-- A pair is sent if its key is not empty and both strings have at most 32767 bytes.
unfoldable pub sendable : List ℕ → List ℕ → Bool
sendable key val =
    if length key == 0
    then false
    else if leb (length key) max_15bit_length
    then leb (length val) max_15bit_length
    else false

abbrev pub pair_size : List ℕ → List ℕ → ℕ
pair_size key val = length (encoded key) + length (encoded val)

-- Of the sendable pairs, in order, those before the first that does not fit behind `used` bytes.
unfoldable pub kept : ℕ → ℕ → Entries → Entries
kept max used [] = []
kept max used ((key, val) ∷ es) =
    let skip = kept max used es in
    let more = (key, val) ∷ kept max (used + pair_size key val) es in
    if sendable key val then (if ltb max (pair_size key val + used) then [] else more) else skip

unfoldable pub encode_entries : Entries → List ℕ
encode_entries [] = []
encode_entries ((key, val) ∷ es) = encoded key ++ (encoded val ++ encode_entries es)

marshal_loop_step :
    (max : ℕ) (key val : List ℕ) (es : Entries) (bytes : List ℕ)
    → marshal_loop max ((key, val) ∷ es) bytes ≡ (
        if sendable key val
        then (if ltb max (pair_size key val + length bytes)
            then bytes
            else marshal_loop max es ((bytes ++ encoded key) ++ encoded val))
        else marshal_loop max es bytes)
unfolding marshal_loop sendable
marshal_loop_step max key val es bytes =
    ground (arith, marshal_string_lem key, marshal_string_lem val)

used_grows :
    (bytes k v : List ℕ) → length ((bytes ++ k) ++ v) ≡ length bytes + (length k + length v)
used_grows bytes k v = omega (arith, length-append {0} (bytes ++ k) v, length-append {0} bytes k)

-- The bytes are those of the kept pairs, behind what was there.
pub marshal_loop-kept :
    (max : ℕ) (es : Entries) (bytes : List ℕ)
    → marshal_loop max es bytes ≡ bytes ++ encode_entries (kept max (length bytes) es)
unfolding kept encode_entries
marshal_loop-kept max [] bytes = unfold marshal_loop in sym (append-nil bytes)
marshal_loop-kept max ((key, val) ∷ es) bytes =
    let next = (bytes ++ encoded key) ++ encoded val in
    marshal_loop_step max key val es bytes ∙ elim (Bool-cases (sendable key val)) [
      | inr no_send ↦ rw no_send (marshal_loop-kept max es bytes)
      | inl send ↦ elim (Bool-cases (ltb max (pair_size key val + length bytes))) [
        | inl full ↦ rw (send, full) (sym (append-nil bytes))
        | inr room ↦
            rw (send, room)
              (marshal_loop-kept max es next
                ∙ rw (used_grows bytes (encoded key) (encoded val), append_assoc, append_assoc))
      ]
    ]

length-encode_kept :
    (max used : ℕ) (es : Entries)
    → used ≤ max
    → length (encode_entries (kept max used es)) + used ≤ max
unfolding kept encode_entries
length-encode_kept max used [] h = omega arith
length-encode_kept max used ((key, val) ∷ es) h = ground (
  arith,
  length-encode_kept max used es,
  length-encode_kept max (used + pair_size key val) es,
  length-append (encoded key)
      (encoded val ++ encode_entries (kept max (used + pair_size key val) es)),
  length-append (encoded val) (encode_entries (kept max (used + pair_size key val) es)),
)

-- The pairs of the map; the nil map has none.
abbrev pub entries_or_nil : Option Entries → Entries
entries_or_nil none = []
entries_or_nil (some es) = es

abbrev pub entries : Metadata → Entries
entries md = entries_or_nil md.values

pub marshal_values-kept :
    (md : Metadata) (max : ℕ) → marshal_values md max ≡ encode_entries (kept max 0 (entries md))
unfolding marshal_values
marshal_values-kept md max = by_values md.values
  where
    by_values :
        (o : Option Entries)
        → (elim o [ none ↦ [] | some es ↦ marshal_loop max es [] ])
          ≡ encode_entries (kept max 0 (entries_or_nil o))
    by_values none = unfold kept encode_entries in refl
    by_values (some es) = marshal_loop-kept max es []

-- `MarshalValues` never returns more than `max` bytes.
pub length-marshal_values : (md : Metadata) (max : ℕ) → length (marshal_values md max) ≤ max
length-marshal_values md max =
    rw (marshal_values-kept md max)
      (omega (arith, length-encode_kept max 0 (entries md) (omega arith)))

abbrev pub AllSendable : Entries → Type 0
AllSendable es = All (λ e. sendable e.0 e.1 ≡ true) es

abbrev pub total_size : Entries → ℕ
total_size [] = 0
total_size ((key, val) ∷ es) = pair_size key val + total_size es

-- Nothing is dropped if every pair is sendable and all fit together.
pub kept_all :
    (max used : ℕ) (es : Entries)
    → AllSendable es
    → used + total_size es ≤ max
    → kept max used es ≡ es
unfolding kept
kept_all max used [] h fits = refl
kept_all max used ((key, val) ∷ es) h fits =
    ground (arith, kept_all max (used + pair_size key val) es)

-- What holds of all pairs holds of the kept ones, and the kept pairs are sendable.
pub All-kept {κ} :
    (P : List ℕ × List ℕ → Type κ) (max used : ℕ) (es : Entries)
    → All P es
    → All P (kept max used es)
unfolding kept
All-kept P max used [] h = h
All-kept P max used ((key, val) ∷ es) h = elim (Bool-cases (sendable key val)) [
  | inr e ↦ rw e (All-kept P max used es h.1)
  | inl e ↦ elim (Bool-cases (ltb max (pair_size key val + used))) [
    | inl full ↦ rw (e, full) tt
    | inr room ↦ rw (e, room) (h.0, All-kept P max (used + pair_size key val) es h.1)
  ]
]

pub kept-AllSendable : (max used : ℕ) (es : Entries) → AllSendable (kept max used es)
unfolding kept
kept-AllSendable max used [] = tt
kept-AllSendable max used ((key, val) ∷ es) = elim (Bool-cases (sendable key val)) [
  | inr e ↦ rw e (kept-AllSendable max used es)
  | inl e ↦ elim (Bool-cases (ltb max (pair_size key val + used))) [
    | inl full ↦ rw (e, full) tt
    | inr room ↦ rw (e, room) (e, kept-AllSendable max (used + pair_size key val) es)
  ]
]
