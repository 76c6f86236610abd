-- ===== src/Gzip/Pools.antt =====
-- go/gzip/gzip.go: the pools of writers and readers behind `Compress` and `Decompress`, and `SetLevel`.
-- `Get` of a `sync.Pool` hands out any of its values or none: the number that an operation takes is
-- the place of the value, and one past the end stands for none.
pub mod Reuse
use openapi_protocol.Base.{
  ℕ, zero, suc, ◌<◌, ◌^◌, ◌≡◌, refl, sym, ap, ◌∙◌, arith, List, [], ◌∷◌, length, Bool, true, false,
  leb, ◌==◌, if◌then◌else◌, Option, none, some, Bool-cases, inl, inr, ℤ, pos, negsuc,
}
use openapi_protocol.Base.Result.{Result, ok, err, panic, gzip_failed}
use openapi_protocol.Gzip
use openapi_protocol.Gzip.{Library, read_limit}
use openapi_protocol.Gzip.Laws.{IsLawful, decompress-compress}

-- What writing a whole input and closing the writer gives.
pub data Written : Type 0 where
  write_failed close_failed : Written
  written : List ℕ → Written

-- What is used of `compress/gzip`. `write` resets the writer, writes the input and closes it;
-- `reset` says whether it failed; `read` gives the bytes of a limited reading, whether it ended by an
-- error, and whether the reader itself came to its end.
pub record Package : Type 1 where
  pub Writer : Type 0
  pub Reader : Type 0
  pub new_writer : ℤ → Option Writer
  pub write : Writer → List ℕ → Writer × Written
  pub new_reader : List ℕ → Option Reader
  pub reset : Reader → List ℕ → Reader × Bool
  pub read : Reader → ℕ → Reader × List ℕ × Bool × Bool

-- `Get`
unfoldable pub take_at : {X : Type 0} → ℕ → List X → Option (X × List X)
take_at i [] = none
take_at zero (x ∷ xs) = some (x, xs)
take_at (suc i) (x ∷ xs) = elim (take_at i xs) [ none ↦ none | some (y, ys) ↦ some (y, x ∷ ys) ]

-- From `gzip.DefaultCompression`, -1, to `gzip.BestCompression`, 9.
unfoldable pub is_level : ℤ → Bool
is_level (pos n) = leb n 9
is_level (negsuc n) = n == 0

module _ (g : Package) where
  open g use {Writer, Reader, new_writer, write, new_reader, reset, read}

  -- `level` is the one that `New` of the pool of writers uses.
  pub record Compressor : Type 0 where
    pub level : ℤ
    pub writers : List Writer
    pub readers : List Reader

  -- `init`
  unfoldable pub default_compressor : Compressor
  default_compressor = record { level = negsuc 0; writers = []; readers = [] }

  -- Whether there is an error, and the pool from now on; writers that are in it keep their level.
  unfoldable pub set_level : ℤ → Compressor → Bool × Compressor
  set_level level c = if is_level level then (false, record c { level = level }) else (true, c)

  -- A new writer where the pool had none; a level that no writer can be made of is a panic.
  unfoldable pub new_or_panic : Compressor → Option Writer → Result (Writer × Compressor)
  new_or_panic c none = panic
  new_or_panic c (some w) = ok (w, c)

  unfoldable pub get_writer :
      Compressor → Option (Writer × List Writer) → Result (Writer × Compressor)
  get_writer c none = new_or_panic c (new_writer c.level)
  get_writer c (some (w, rest)) = ok (w, record c { writers = rest })

  -- Only a writer that was closed goes back into the pool.
  unfoldable pub put_writer : Compressor → Writer × Written → Compressor × Result (List ℕ)
  put_writer c (w, write_failed) = (c, err gzip_failed)
  put_writer c (w, close_failed) = (record c { writers = w ∷ c.writers }, err gzip_failed)
  put_writer c (w, written out) = (record c { writers = w ∷ c.writers }, ok out)

  unfoldable pub write_with :
      Compressor → List ℕ → Result (Writer × Compressor) → Compressor × Result (List ℕ)
  write_with c bytes (ok (w, c')) = put_writer c' (write w bytes)
  write_with c bytes (err e) = (c, err e)
  write_with c bytes panic = (c, panic)

  unfoldable pub compress : ℕ → Compressor → List ℕ → Compressor × Result (List ℕ)
  compress i c bytes = write_with c bytes (get_writer c (take_at i c.writers))

  -- `compressor.Decompress`: a reader of the pool that cannot be reset goes back into it.
  unfoldable pub reset_reader : Compressor → Reader × Bool → Compressor × Option Reader
  reset_reader c (z, true) = (record c { readers = z ∷ c.readers }, none)
  reset_reader c (z, false) = (c, some z)

  unfoldable pub get_reader :
      Compressor → List ℕ → Option (Reader × List Reader) → Compressor × Option Reader
  get_reader c bytes none = (c, new_reader bytes)
  get_reader c bytes (some (z, rest)) = reset_reader (record c { readers = rest }) (reset z bytes)

  -- A reader that came to its end goes into the pool.
  unfoldable pub read_from :
      Compressor → Reader × List ℕ × Bool × Bool → Compressor × Result (List ℕ × ℕ)
  read_from c (z, out, failed, ended) = (
    if ended then record c { readers = z ∷ c.readers } else c,
    if failed then err gzip_failed else ok (out, length out),
  )

  unfoldable pub read_opened :
      List ℕ → Compressor × Option Reader → Compressor × Result (List ℕ × ℕ)
  read_opened bytes (c, none) = (c, err gzip_failed)
  read_opened bytes (c, some z) = read_from c (read z (read_limit bytes))

  unfoldable pub decompress : ℕ → Compressor → List ℕ → Compressor × Result (List ℕ × ℕ)
  decompress i c bytes = read_opened bytes (get_reader c bytes (take_at i c.readers))
