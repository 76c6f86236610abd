-- ===== src/Gzip/Pools/Reuse.antt =====
-- Compression over the pools does what the library does on fresh writers and readers, from what
-- `compress/gzip` documents of `Reset`.
use openapi_protocol.Base.{
  ℕ, zero, suc, ◌<◌, ◌^◌, ◌≡◌, refl, sym, ap, ◌∙◌, List, [], ◌∷◌, length, Bool, true, false,
  if◌then◌else◌, Option, none, some, Bool-cases, inl, inr, ℤ,
}
use openapi_protocol.Base.Result.{Result, ok, err, gzip_failed}
use openapi_protocol.Gzip
use openapi_protocol.Gzip.{Library, read_limit}
use openapi_protocol.Gzip.Laws.{IsLawful, decompress-compress}
use openapi_protocol.Gzip.Pools.{
  Written, write_failed, close_failed, written, Package, take_at, is_level, Compressor,
  default_compressor, set_level, new_or_panic, get_writer, put_writer, write_with, compress,
  reset_reader, get_reader, read_from, read_opened, decompress,
}

-- The bytes of a reading, and whether it ended by an error.
abbrev pub seen : {X : Type 0} → X × List ℕ × Bool × Bool → List ℕ × Bool
seen (z, out, failed, ended) = (out, failed)

abbrev pub out_of : Written → Option (List ℕ)
out_of write_failed = none
out_of close_failed = none
out_of (written out) = some out

-- A writer has a level for good, and resetting it makes it like a new one of its level; resetting a
-- reader makes it like a new one. There are writers of every level.
pub record IsDocumented (g : Package) : Type 0 where
  pub level_of : g.Writer → ℤ
  pub level_made : (l : ℤ) (w : g.Writer) → g.new_writer l ≡ some w → level_of w ≡ l
  pub made : (l : ℤ) → is_level l ≡ true → (w : g.Writer) × (g.new_writer l ≡ some w)
  pub level_kept : (w : g.Writer) (bytes : List ℕ) → level_of (g.write w bytes).0 ≡ level_of w
  pub writes_alike :
      (w w' : g.Writer) (bytes : List ℕ)
      → level_of w ≡ level_of w'
      → (g.write w bytes).1 ≡ (g.write w' bytes).1
  pub reset_fails :
      (z : g.Reader) (bytes : List ℕ) → g.new_reader bytes ≡ none → (g.reset z bytes).1 ≡ true
  pub reset_opens :
      (z y : g.Reader) (bytes : List ℕ) → g.new_reader bytes ≡ some y → (g.reset z bytes).1 ≡ false
  pub reads_alike :
      (z y : g.Reader) (bytes : List ℕ) (n : ℕ)
      → g.new_reader bytes ≡ some y
      → seen (g.read (g.reset z bytes).0 n) ≡ seen (g.read y n)

-- New writers of one level, and new readers.
abbrev pub library : Package → ℤ → Library
library g l = record {
  deflate = λ bytes. elim (g.new_writer l) [ none ↦ none | some w ↦ out_of (g.write w bytes).1 ];
  inflate =
      λ bytes n. elim (g.new_reader bytes) [ none ↦ none | some z ↦ some (seen (g.read z n)) ];
}

module _ {g : Package} (d : IsDocumented g) where
  open g use {Writer, Reader, new_writer, write, new_reader, reset, read}
  open d use {
    level_of, level_made, made, level_kept, writes_alike, reset_fails, reset_opens, reads_alike,
  }

  abbrev pub HasLevels : List Writer → Type 0
  HasLevels [] = Unit
  HasLevels (w ∷ ws) = (is_level (level_of w) ≡ true) × HasLevels ws

  -- The level for new writers and those of the writers in the pool are valid.
  pub record IsReady (c : Compressor g) : Type 0 where
    pub level : is_level c.level ≡ true
    pub writers : HasLevels c.writers

  -- What was taken of a pool of valid levels.
  abbrev IsTaken : Option (Writer × List Writer) → Type 0
  IsTaken none = Unit
  IsTaken (some (w, rest)) = (is_level (level_of w) ≡ true) × HasLevels rest

  behind :
      (x : Writer) (o : Option (Writer × List Writer))
      → is_level (level_of x) ≡ true
      → IsTaken o
      → IsTaken (elim o [ none ↦ none | some (y, ys) ↦ some (y, x ∷ ys) ])
  behind x none l t = tt
  behind x (some (y, ys)) l t = (t.0, (l, t.1))

  take_at-IsTaken : (i : ℕ) (ws : List Writer) → HasLevels ws → IsTaken (take_at i ws)
  unfolding take_at
  take_at-IsTaken i [] h = tt
  take_at-IsTaken zero (x ∷ xs) h = h
  take_at-IsTaken (suc i) (x ∷ xs) h = behind x (take_at i xs) h.0 (take_at-IsTaken i xs h.1)

  put_writer_lem :
      (c : Compressor g) (r : Writer × Written)
      → IsReady c
      → is_level (level_of r.0) ≡ true
      → ((put_writer g c r).1 ≡ (elim (out_of r.1) [ none ↦ err gzip_failed | some out ↦ ok out ]))
        × IsReady (put_writer g c r).0
  unfolding put_writer
  put_writer_lem c (w, write_failed) v l = (refl, v)
  put_writer_lem c (w, close_failed) v l =
      (refl, record { level = v.level; writers = (l, v.writers) })
  put_writer_lem c (w, written out) v l =
      (refl, record { level = v.level; writers = (l, v.writers) })

  write_lem :
      (c : Compressor g) (w : Writer) (bytes : List ℕ)
      → IsReady c
      → is_level (level_of w) ≡ true
      → ((put_writer g c (write w bytes)).1 ≡ Gzip.compress (library g (level_of w)) bytes)
        × IsReady (put_writer g c (write w bytes)).0
  unfolding Gzip.compress
  write_lem c w bytes v l =
      let fresh = made (level_of w) l in
      let alike = writes_alike w fresh.0 bytes (sym (level_made (level_of w) fresh.0 fresh.1)) in
      let r = put_writer_lem c (write w bytes) v (rw (level_kept w bytes) l) in
      (rw (fresh.1, ← alike) r.0, r.1)

  -- What a compression is to give: what the library gives at a valid level, and a compressor that is
  -- ready again.
  abbrev pub Compresses : List ℕ → Compressor g × Result (List ℕ) → Type 0
  Compresses bytes r =
      (l : ℤ) × (is_level l ≡ true) × (r.1 ≡ Gzip.compress (library g l) bytes) × IsReady r.0

  write_with_lem :
      (c : Compressor g) (bytes : List ℕ) (o : Option (Writer × List Writer))
      → IsReady c
      → IsTaken o
      → Compresses bytes (write_with g c bytes (get_writer g c o))
  unfolding write_with get_writer new_or_panic
  write_with_lem c bytes (some (w, rest)) v t =
      let r =
        write_lem (record c { writers = rest }) w bytes (record { level = v.level; writers = t.1 })
          t.0 in
      (level_of w, t.0, r.0, r.1)
  write_with_lem c bytes none v t =
      let fresh = made c.level v.level in
      let l : is_level (level_of fresh.0) ≡ true =
        rw (level_made c.level fresh.0 fresh.1) v.level in
      let r = write_lem c fresh.0 bytes v l in rw fresh.1 (level_of fresh.0, l, r.0, r.1)

  -- From a compressor whose levels are valid, whatever its pools hold and hand out, `Compress` never
  -- panics but gives what a new writer of a valid level gives, and leaves a compressor whose levels
  -- are valid.
  pub compress-library :
      (i : ℕ) (c : Compressor g) (bytes : List ℕ)
      → IsReady c
      → Compresses bytes (compress g i c bytes)
  unfolding compress
  compress-library i c bytes v =
      write_with_lem c bytes (take_at i c.writers) v (take_at-IsTaken i c.writers v.writers)

  read_from_lem :
      (l : ℤ) (c : Compressor g) (bytes : List ℕ) (z y : Reader)
      → new_reader bytes ≡ some y
      → seen (read z (read_limit bytes)) ≡ seen (read y (read_limit bytes))
      → (read_from g c (read z (read_limit bytes))).1 ≡ Gzip.decompress (library g l) bytes
  unfolding read_from Gzip.decompress
  read_from_lem l c bytes z y e s =
      rw e (ap (λ (q : List ℕ × Bool). if q.1 then err gzip_failed else ok (q.0, length q.0)) s)

  -- What a reader gives that was opened, or that it could not be.
  opened_lem :
      (l : ℤ) (c : Compressor g) (z : Reader) (bytes : List ℕ) (o : Option Reader)
      → new_reader bytes ≡ o
      → (read_opened g bytes (reset_reader g c (reset z bytes))).1
        ≡ Gzip.decompress (library g l) bytes
  unfolding reset_reader read_opened Gzip.decompress
  opened_lem l c z bytes none e = rw (reset_fails z bytes e, e) refl
  opened_lem l c z bytes (some y) e =
      rw (reset_opens z y bytes e)
        (read_from_lem l c bytes (reset z bytes).0 y e (reads_alike z y bytes (read_limit bytes) e))

  new_lem :
      (l : ℤ) (c : Compressor g) (bytes : List ℕ) (o : Option Reader)
      → new_reader bytes ≡ o
      → (read_opened g bytes (c, o)).1 ≡ Gzip.decompress (library g l) bytes
  unfolding read_opened Gzip.decompress
  new_lem l c bytes none e = rw e refl
  new_lem l c bytes (some y) e = read_from_lem l c bytes y y e refl

  taken_lem :
      (l : ℤ) (c : Compressor g) (bytes : List ℕ) (o : Option (Reader × List Reader))
      → (read_opened g bytes (get_reader g c bytes o)).1 ≡ Gzip.decompress (library g l) bytes
  unfolding get_reader
  taken_lem l c bytes none = new_lem l c bytes (new_reader bytes) refl
  taken_lem l c bytes (some (z, rest)) =
      opened_lem l (record c { readers = rest }) z bytes (new_reader bytes) refl

  -- `Decompress` gives what a new reader gives, whatever the pool holds and hands out.
  pub decompress-library :
      (i : ℕ) (c : Compressor g) (l : ℤ) (bytes : List ℕ)
      → (decompress g i c bytes).1 ≡ Gzip.decompress (library g l) bytes
  unfolding decompress
  decompress-library i c l bytes = taken_lem l c bytes (take_at i c.readers)

  -- A body shorter than 2^32 bytes is what its compressed form decompresses to, whatever the pools
  -- hold and hand out, and whatever level is set in between, if the levels of the compressor are valid
  -- and the library is lawful at each valid level.
  pub decompress-compress_pooled :
      (i j : ℕ) (c c' : Compressor g) (bytes out : List ℕ)
      → IsReady c
      → ((l : ℤ) → is_level l ≡ true → IsLawful (library g l))
      → length bytes < 2 ^ 32
      → (compress g i c bytes).1 ≡ ok out
      → (decompress g j c' out).1 ≡ ok (bytes, length bytes)
  decompress-compress_pooled i j c c' bytes out v lawful lt e =
      let r = compress-library i c bytes v in
      decompress-library j c' r.0 out
      ∙ decompress-compress (library g r.0) (lawful r.0 r.1) bytes out lt (sym r.2 ∙ e)

  -- The compressor is ready from the start, and `SetLevel` keeps it so: it refuses a level that is not
  -- valid and then changes nothing.
  pub set_level-IsReady :
      (l : ℤ) (c : Compressor g)
      → IsReady c
      → IsReady (default_compressor g)
        × IsReady (set_level g l c).1
        × ((set_level g l c).0 ≡ true → (set_level g l c).1 ≡ c)
  unfolding set_level default_compressor is_level
  set_level-IsReady l c v = elim (Bool-cases (is_level l)) [
    | inl e ↦
        simp e (
          record { level = refl; writers = tt },
          record { level = e; writers = v.writers },
          λ h. cc,
        )
    | inr e ↦ simp e (record { level = refl; writers = tt }, v, λ h. refl)
  ]
