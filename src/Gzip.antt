-- ===== src/Gzip.antt =====
-- go/gzip/gzip.go: compression of packet bodies, over Go's package `compress/gzip`.
pub mod Laws
pub mod Pools
use openapi_protocol.Base.{
  ℕ, zero, suc, ◌+◌, ◌-◌, ◌*◌, ◌^◌, List, [], ◌∷◌, length, drop, Bool, true, false, ltb,
  if◌then◌else◌, Option, none, some,
}
use openapi_protocol.Base.Result.{Result, ok, err, gzip_failed}

-- What is used of `compress/gzip`. `deflate` is a writer to which the input is written and which
-- is closed; `inflate zs n` is what `io.LimitReader(r, n)` yields for a reader `r` on `zs`: `none`
-- where no reader can be made, else the bytes read and whether the reading ended by an error.
pub record Library : Type 0 where
  pub deflate : List ℕ → Option (List ℕ)
  pub inflate : List ℕ → ℕ → Option (List ℕ × Bool)

-- `LittleEndian.Uint32`
unfoldable pub le_uint : List ℕ → ℕ
le_uint [] = 0
le_uint (b ∷ bytes) = b + 2 ^ 8 * le_uint bytes

-- The size that the last four bytes give; `none` is -1.
unfoldable pub decompressed_size : List ℕ → Option ℕ
unfolding le_uint
decompressed_size buf =
    let last = length buf in if ltb last 4 then none else some (le_uint (drop (last - 4) buf))

-- `dsize+1`
unfoldable pub read_limit : List ℕ → ℕ
unfolding decompressed_size
read_limit buf = elim (decompressed_size buf) [ none ↦ 0 | some dsize ↦ dsize + 1 ]

module _ (lib : Library) where
  unfoldable pub compress : List ℕ → Result (List ℕ)
  compress bytes = elim (lib.deflate bytes) [ none ↦ err gzip_failed | some out ↦ ok out ]

  -- The bytes and their number.
  unfoldable pub decompress : List ℕ → Result (List ℕ × ℕ)
  decompress bytes = elim (lib.inflate bytes (read_limit bytes)) [
    | none ↦ err gzip_failed
    | some (out, failed) ↦ if failed then err gzip_failed else ok (out, length out)
  ]
