-- ===== src/Metadata/Strings.antt =====
-- go/metadata.go: a string behind its length, in one byte up to 127 and in two up to 32767.
use openapi_protocol.Base.{
  ℕ, ◌+◌, ◌*◌, ◌/◌, ◌%◌, ◌^◌, ◌<◌, ◌≤◌, ◌≡◌, ◌≢◌, refl, arith, bit_and, bit_or, List, [], ◌∷◌, ◌++◌,
  length, length-append, drop, length-drop, take-append, drop-append, ltb, leb, ◌==◌, if◌then◌else◌,
  Option, none, some, Bool-cases, inl, inr, ◌⊎◌, ◌∙◌,
}
use openapi_protocol.Base.Result.{
  Result, ok, err, panic, invalid_metadata_data, ◌>>=◌, >>=-eq-ok, index, slice,
}
use openapi_protocol.Base.Bits.{and_127, and_128, or_128, and_255}
use openapi_protocol.Metadata.{max_7bit_length, max_15bit_length}

abbrev length_7bit : ℕ
length_7bit = 0

abbrev length_15bit : ℕ
length_15bit = 0x80

abbrev length_mask : ℕ
length_mask = 0x80

-- The two bytes of a long length.
unfoldable pub long_length : ℕ → ℕ → Result (ℕ × ℕ)
long_length first second =
    let l = first * 2 ^ 8 + second in
    if leb l max_7bit_length then err invalid_metadata_data else ok (l, length_15bit)

-- The length of the string at the front, and which form it has.
unfoldable pub unmarshal_string_length : List ℕ → Result (ℕ × ℕ)
unfolding long_length
unmarshal_string_length [] = ok (0, length_7bit)
unmarshal_string_length (b ∷ bytes) =
    let bit_size = bit_and b length_mask in
    if bit_size == length_7bit
    then ok (bit_and b 0x7f, bit_size)
    else if bit_size == length_15bit
    then (if ltb (length (b ∷ bytes)) 2
        then err invalid_metadata_data
        else (do second ← index (b ∷ bytes) 1; long_length (bit_and b 0x7f) second))
    else ok (0, bit_size)

-- The closure `getString`: the string at the front, and the bytes behind it. `sl > l-1` and
-- `sl > l-2` are over Go's signed integers, so they are written by sums here.
unfoldable pub string_at : List ℕ → ℕ → ℕ → Result (List ℕ × List ℕ)
string_at bytes sl bit_size =
    if bit_size == length_7bit
    then (if ltb (length bytes) (sl + 1)
        then err invalid_metadata_data
        else (do str ← slice bytes 1 (sl + 1); ok (str, drop (sl + 1) bytes)))
    else if bit_size == length_15bit
    then (if ltb (length bytes) (sl + 2)
        then err invalid_metadata_data
        else (do str ← slice bytes 2 (sl + 2); ok (str, drop (sl + 2) bytes)))
    else err invalid_metadata_data

unfoldable pub get_string : List ℕ → Result (List ℕ × List ℕ)
unfolding unmarshal_string_length string_at
get_string bytes = do (sl, bit_size) ← unmarshal_string_length bytes; string_at bytes sl bit_size

-- `none` is the result `tooLong`.
unfoldable pub marshal_string : List ℕ → Option (List ℕ)
marshal_string str =
    let l = length str in
    if leb l max_7bit_length
    then some ((l % 2 ^ 8) ∷ str)
    else if leb l max_15bit_length
    then some (bit_or (l / 2 ^ 8 % 2 ^ 8) length_15bit ∷ bit_and l 0xff ∷ str)
    else none

-- The bytes of a string that is not too long, in plain arithmetic.
unfoldable pub encoded : List ℕ → List ℕ
encoded str =
    if leb (length str) max_7bit_length
    then length str ∷ str
    else (128 + length str / 2 ^ 8) ∷ (length str % 2 ^ 8) ∷ str

-- A string is refused exactly when it is longer than 32767 bytes.
pub marshal_string_lem :
    (str : List ℕ)
    → marshal_string str ≡ (if leb (length str) max_15bit_length then some (encoded str) else none)
unfolding marshal_string encoded
marshal_string_lem str = ground (arith, or_128 (length str / 2 ^ 8), and_255 (length str))

-- `getString` reads back the string that was written, and leaves what follows it.
pub get_string-encoded :
    (str rest : List ℕ)
    → length str ≤ max_15bit_length
    → get_string (encoded str ++ rest) ≡ ok (str, rest)
unfolding get_string encoded
get_string-encoded str rest fits = elim (Bool-cases (leb (length str) max_7bit_length)) [
  | inl short ↦ rw short (
      ground (
        arith,
        and_127 (length str),
        and_128 (length str),
        length-append str rest,
        take-append (length str) str rest refl,
        drop-append (length str) str rest refl,
      ))
  | inr long ↦ rw long (
      ground (
        arith,
        and_127 (128 + length str / 2 ^ 8),
        and_128 (128 + length str / 2 ^ 8),
        length-append str rest,
        take-append (length str) str rest refl,
        drop-append (length str) str rest refl,
      ))
]

-- A string of more than 32767 bytes is refused. Any other is written in one byte more, up to 127
-- bytes, and else in two more, and `getString` reads it back and leaves what follows it.
pub get_string-marshal_string :
    (str rest : List ℕ)
    → ((32767 < length str) × (marshal_string str ≡ none))
      ⊎ ((bytes : List ℕ) × (length str ≤ 32767)
          × (marshal_string str ≡ some bytes)
          × (length bytes ≡ length str + (if leb (length str) 127 then 1 else 2))
          × (get_string (bytes ++ rest) ≡ ok (str, rest)))
get_string-marshal_string str rest = elim (Bool-cases (leb (length str) max_15bit_length)) [
  | inl e ↦
      let fits : length str ≤ max_15bit_length = ground arith in
      inr (
        encoded str,
        fits,
        marshal_string_lem str ∙ rw e refl,
        unfold encoded in ground arith,
        get_string-encoded str rest fits,
      )
  | inr e ↦ inl (ground arith, marshal_string_lem str ∙ rw e refl)
]

-- No input makes `getString` panic, and a string that it returns takes at least a byte.
pub get_string-ne-panic : (bytes : List ℕ) → get_string bytes ≢ panic
unfolding get_string
get_string-ne-panic [] = ground arith
get_string-ne-panic (b ∷ []) = ground arith
get_string-ne-panic (b ∷ c ∷ bytes) = ground arith

string_at_takes :
    (bytes : List ℕ) (sl bit_size : ℕ) (str rest : List ℕ)
    → string_at bytes sl bit_size ≡ ok (str, rest)
    → length rest < length bytes
unfolding string_at
string_at_takes bytes sl bit_size str rest h =
    ground (arith, length-drop (sl + 1) bytes, length-drop (sl + 2) bytes)

pub get_string_takes :
    (bytes str rest : List ℕ) → get_string bytes ≡ ok (str, rest) → length rest < length bytes
unfolding get_string
get_string_takes bytes str rest h =
    let ((sl, bit_size), _, e) =
      >>=-eq-ok (unmarshal_string_length bytes) (λ p. string_at bytes p.0 p.1) h in
    string_at_takes bytes sl bit_size str rest e
