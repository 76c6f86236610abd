-- ===== src/Examples/Protocols.antt =====
-- The compression and the metadata on concrete data.
use openapi_protocol.Base.{
  ℕ, ◌+◌, ◌<◌, ◌≤◌, ◌⊎◌, ◌++◌, ◌≡◌, refl, List, [], ◌∷◌, length, false, if◌then◌else◌, leb,
  bytes_eq, none, some,
}
use openapi_protocol.Base.Result.{ok}
use openapi_protocol.Examples.Stored.{stored}
use openapi_protocol.Gzip.{compress, decompress, read_limit}
use openapi_protocol.Metadata.{Metadata, request, set, insert}
use openapi_protocol.Metadata.Strings.{marshal_string, get_string, get_string-marshal_string}
use openapi_protocol.Metadata.Values.{marshal_values, unmarshal_values}
use openapi_protocol.Metadata.Values.Kept.{entries, kept}
use openapi_protocol.Metadata.Values.RoundTrip.{unmarshal-marshal}

abbrev text : List ℕ
text = 104 ∷ 105 ∷ []

abbrev zipped : List ℕ
zipped = 104 ∷ 105 ∷ 2 ∷ 0 ∷ 0 ∷ 0 ∷ []

zipped_lem : compress stored text ≡ ok zipped
unfolding compress
zipped_lem = refl

unzipped_lem : decompress stored zipped ≡ ok (text, 2)
unfolding decompress read_limit
unzipped_lem = refl

-- `strings.ToLower` on ASCII letters.
abbrev lower : List ℕ → List ℕ
lower [] = []
lower (b ∷ bytes) = (if leb 65 b then (if leb b 90 then b + 32 else b) else b) ∷ lower bytes

abbrev md : Metadata
md = record {
  nonce = 0;
  request_id = 1;
  cmd_code = 2;
  verify = false;
  gzip = false;
  timeout = 0;
  codec = 1;
  status_code = 0;
  type = request;
  signature = [];
  values = some ((97 ∷ [], 98 ∷ 99 ∷ []) ∷ (100 ∷ [], []) ∷ []);
}

get_string-marshal_string_example :
    ((32767 < length text) × (marshal_string text ≡ none))
    ⊎ ((bytes : List ℕ) × (length text ≤ 32767)
        × (marshal_string text ≡ some bytes)
        × (length bytes ≡ length text + (if leb (length text) 127 then 1 else 2))
        × (get_string (bytes ++ (9 ∷ [])) ≡ ok (text, 9 ∷ [])))
get_string-marshal_string_example = get_string-marshal_string text (9 ∷ [])

apart : bytes_eq (97 ∷ []) (100 ∷ []) ≡ false
unfolding bytes_eq
apart = refl

unmarshal-marshal_example :
    unmarshal_values lower md (marshal_values md 100)
    ≡ ok (record md { values = some (kept 100 0 (entries md)) })
unmarshal-marshal_example =
    unmarshal-marshal lower md md 100 (refl, (refl, tt)) ((apart, tt), (tt, tt))

abbrev md_after : Metadata
md_after = record md { values = some ((97 ∷ [], 99 ∷ []) ∷ (100 ∷ [], []) ∷ []) }

set_lem : set lower md (65 ∷ []) (99 ∷ []) ≡ ok md_after
unfolding set insert bytes_eq
set_lem = refl
