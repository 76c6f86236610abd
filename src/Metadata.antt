-- ===== src/Metadata.antt =====
-- go/metadata.go: the metadata of a packet, and the key-value pairs that version 2 sends in it.
-- A string is its bytes. `strings.ToLower` is the parameter `lower`. The map `Values` is a list of
-- pairs with distinct keys, in the order in which `range` visits it; `none` is the nil map.
pub mod Strings
pub mod Values
pub mod Access
use openapi_protocol.Base.{
  ℕ, ◌+◌, ◌≤◌, List, [], ◌∷◌, length, Bool, true, false, ltb, bytes_eq, if◌then◌else◌, Option, none,
  some,
}
use openapi_protocol.Base.Result.{
  Result, ok, err, panic, key_length_too_long, value_length_too_long,
}

abbrev pub Entries : Type 0
Entries = List (List ℕ × List ℕ)

-- The packet types are strings in Go; `other` is every other string, the empty one included.
pub data PacketType : Type 0 where
  request response push other : PacketType

pub record Metadata : Type 0 where
  pub nonce : ℕ
  pub request_id : ℕ
  pub cmd_code : ℕ
  pub verify : Bool
  pub gzip : Bool
  pub timeout : ℕ
  pub codec : ℕ
  pub status_code : ℕ
  pub type : PacketType
  pub signature : List ℕ
  pub values : Option Entries

abbrev pub max_7bit_length : ℕ
max_7bit_length = 127

abbrev pub max_15bit_length : ℕ
max_15bit_length = 32767

abbrev pub max_string_length : ℕ
max_string_length = max_15bit_length

-- `values[k] = v`
unfoldable pub insert : List ℕ → List ℕ → Entries → Entries
insert k v [] = (k, v) ∷ []
insert k v ((j, w) ∷ es) = if bytes_eq j k then (k, v) ∷ es else (j, w) ∷ insert k v es

-- `values[k]`: the empty string where there is no entry.
unfoldable pub lookup : List ℕ → Entries → List ℕ
lookup k [] = []
lookup k ((j, w) ∷ es) = if bytes_eq j k then w else lookup k es

module _ (lower : List ℕ → List ℕ) where
  -- `Metadata.Set`. A write to the nil map is a panic.
  unfoldable pub set : Metadata → List ℕ → List ℕ → Result Metadata
  set md k v =
      if ltb max_string_length (length k)
      then err key_length_too_long
      else if ltb max_string_length (length v)
      then err value_length_too_long
      else elim md.values [
        | none ↦ panic
        | some es ↦ ok (record md { values = some (insert (lower k) v es) })
      ]

  -- `Metadata.Get`. A read from the nil map gives the empty string.
  unfoldable pub get : Metadata → List ℕ → List ℕ
  get md k = elim md.values [ none ↦ [] | some es ↦ lookup (lower k) es ]
