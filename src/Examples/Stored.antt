-- ===== src/Examples/Stored.antt =====
-- A compression that stores its input and ends it by its length: it meets the laws of the library
-- that go/gzip/gzip.go calls, for concrete instances.
use openapi_protocol.Base.{
  ℕ, ◌-◌, ◌/◌, ◌%◌, ◌^◌, ◌≤◌, ◌≡◌, refl, arith, List, [], ◌∷◌, ◌++◌, length, length-append,
  length-take, take, take-append, drop, drop-append, Bool, false, ltb, if◌then◌else◌, none, some,
}
use openapi_protocol.Gzip.{Library, le_uint}
use openapi_protocol.Gzip.Laws.{IsLawful}

abbrev size_bytes : ℕ → List ℕ
size_bytes n = n % 2 ^ 8 ∷ n / 2 ^ 8 % 2 ^ 8 ∷ n / 2 ^ 16 % 2 ^ 8 ∷ n / 2 ^ 24 % 2 ^ 8 ∷ []

abbrev pub stored : Library
stored = record {
  deflate = λ bytes. some (bytes ++ size_bytes (length bytes));
  inflate =
      λ zs n. if ltb (length zs) 4 then none else some (take n (take (length zs - 4) zs), false);
}

size_bytes_lem : (n : ℕ) → le_uint (size_bytes n) ≡ n % 2 ^ 32
unfolding le_uint
size_bytes_lem n = omega arith

stored_back :
    (bytes out : List ℕ) (n : ℕ)
    → some (bytes ++ size_bytes (length bytes)) ≡ some out
    → stored.inflate out n ≡ some (take n bytes, false)
stored_back bytes out n e = ground (
  arith,
  length-append bytes (size_bytes (length bytes)),
  take-append (length bytes) bytes (size_bytes (length bytes)) refl,
)

stored_trailer :
    (bytes out : List ℕ)
    → some (bytes ++ size_bytes (length bytes)) ≡ some out
    → (4 ≤ length out) × (le_uint (drop (length out - 4) out) ≡ length bytes % 2 ^ 32)
stored_trailer bytes out e = ground (
  arith,
  length-append bytes (size_bytes (length bytes)),
  drop-append (length bytes) bytes (size_bytes (length bytes)) refl,
  size_bytes_lem (length bytes),
)

stored_limited :
    (bytes out : List ℕ) (n : ℕ) (failed : Bool)
    → stored.inflate bytes n ≡ some (out, failed)
    → length out ≤ n
stored_limited bytes out n failed e = ground (arith, length-take n (take (length bytes - 4) bytes))

pub stored-IsLawful : IsLawful stored
stored-IsLawful = record {
  inflate-deflate = stored_back;
  trailer = stored_trailer;
  limited = stored_limited;
}
