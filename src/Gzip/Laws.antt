-- ===== src/Gzip/Laws.antt =====
-- Round trip and size bound of the compression, from what `compress/gzip` documents.
use openapi_protocol.Base.{
  ℕ, ◌+◌, ◌-◌, ◌%◌, ◌^◌, ◌≤◌, ◌<◌, ◌≡◌, arith, List, length, take, take_all, drop, Bool, false,
  some,
}
use openapi_protocol.Base.Result.{ok}
use openapi_protocol.Gzip.{Library, le_uint, read_limit, compress, decompress}

-- Compressed data decompress to the original, ended by its length modulo 2^32, as RFC 1952 says;
-- a limited reader yields no more than its limit.
pub record IsLawful (lib : Library) : Type 0 where
  pub inflate-deflate :
      (bytes out : List ℕ) (n : ℕ)
      → lib.deflate bytes ≡ some out
      → lib.inflate out n ≡ some (take n bytes, false)
  pub trailer :
      (bytes out : List ℕ)
      → lib.deflate bytes ≡ some out
      → (4 ≤ length out) × (le_uint (drop (length out - 4) out) ≡ length bytes % 2 ^ 32)
  pub limited :
      (bytes out : List ℕ) (n : ℕ) (failed : Bool)
      → lib.inflate bytes n ≡ some (out, failed)
      → length out ≤ n

module _ (lib : Library) (lawful : IsLawful lib) where
  deflated : (bytes out : List ℕ) → compress lib bytes ≡ ok out → lib.deflate bytes ≡ some out
  unfolding compress
  deflated bytes out e = ground arith

  limit-deflated :
      (bytes out : List ℕ)
      → length bytes < 2 ^ 32
      → lib.deflate bytes ≡ some out
      → read_limit out ≡ length bytes + 1
  unfolding read_limit
  limit-deflated bytes out h e = let t = lawful.trailer bytes out e in ground arith

  -- A body shorter than 2^32 bytes is what its compressed form decompresses to.
  pub decompress-compress :
      (bytes out : List ℕ)
      → length bytes < 2 ^ 32
      → compress lib bytes ≡ ok out
      → decompress lib out ≡ ok (bytes, length bytes)
  unfolding decompress
  decompress-compress bytes out h e =
      let d = deflated bytes out e in
      ground (
        arith,
        limit-deflated bytes out h d,
        lawful.inflate-deflate bytes out (read_limit out) d,
        take_all (read_limit out) bytes,
      )

  -- A decompression yields at most one byte more than the size that its input gives for it.
  pub length-decompress :
      (bytes out : List ℕ) (n : ℕ)
      → decompress lib bytes ≡ ok (out, n)
      → (n ≡ length out) × (n ≤ read_limit bytes)
  unfolding decompress
  length-decompress bytes out n e =
      ground (arith, lawful.limited bytes out (read_limit bytes) false)
