-- ===== src/Metadata/Values.antt =====
-- go/metadata.go: `UnmarshalValues` and `MarshalValues`, the key-value pairs as bytes.
pub mod Kept
pub mod RoundTrip
use openapi_protocol.Base.{
  ℕ, zero, suc, ◌+◌, List, [], ◌∷◌, ◌++◌, length, Bool, true, false, ltb, ◌==◌, if◌then◌else◌,
  Option, none, some,
}
use openapi_protocol.Base.Result.{Result, ok, err, panic, invalid_metadata_data, ◌>>=◌}
use openapi_protocol.Metadata.{Entries, Metadata, insert}
use openapi_protocol.Metadata.Strings.{get_string, marshal_string}

module _ (lower : List ℕ → List ℕ) where
  -- The loop. It also panics where its fuel runs out, which `unmarshal_values` never lets happen.
  unfoldable pub unmarshal_loop : ℕ → List ℕ → Entries → Result Entries
  unmarshal_loop fuel [] es = ok es
  unmarshal_loop zero (b ∷ bytes) es = panic
  unmarshal_loop (suc fuel) (b ∷ bytes) es = do
    (key, rest) ← get_string (b ∷ bytes)
    (val, rest) ← get_string rest
    unmarshal_loop fuel rest (insert (lower key) val es)

  -- A pair takes a byte at least, so as many rounds as there are bytes are enough.
  unfoldable pub unmarshal_values : Metadata → List ℕ → Result Metadata
  unmarshal_values md bytes =
      if length bytes == 0
      then ok (record md { values = some [] })
      else if ltb (length bytes) 2
      then err invalid_metadata_data
      else (do es ← unmarshal_loop (length bytes) bytes []; ok (record md { values = some es }))

-- The loop over the pairs: it skips a pair with an empty key or a string that is too long, and
-- ends at the first pair for which there is no room.
unfoldable pub marshal_loop : ℕ → Entries → List ℕ → List ℕ
marshal_loop max [] bytes = bytes
marshal_loop max ((key, val) ∷ es) bytes =
    let skip = marshal_loop max es bytes in
    if length key == 0 then skip else elim (marshal_string key) [
      | none ↦ skip
      | some k ↦ elim (marshal_string val) [
        | none ↦ skip
        | some v ↦
            let more = marshal_loop max es ((bytes ++ k) ++ v) in
            if ltb max (length k + length v + length bytes) then bytes else more
      ]
    ]

-- `MarshalValues(max)`; the nil slice of the source is the empty one here.
unfoldable pub marshal_values : Metadata → ℕ → List ℕ
marshal_values md max = elim md.values [ none ↦ [] | some es ↦ marshal_loop max es [] ]
