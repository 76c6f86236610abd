-- ===== src/Protocol/Options.antt =====
-- go/protocol.go: `PackOptions`, whose size is a Go `int`. An option is a function on the options, applied in order.
use openapi_protocol.Base.{ℕ, leb, not, Bool, true, ◌==◌, ◌&&◌, List, [], ◌∷◌, ℤ, pos, negsuc}

pub record PackOptions : Type 0 where
  pub min_gzip_size : ℤ

abbrev pub PackOption : Type 0
PackOption = PackOptions → PackOptions

unfoldable pub gzip_size : ℤ → PackOption
gzip_size n o = record o { min_gzip_size = n }

apply_all : List PackOption → PackOptions → PackOptions
apply_all [] o = o
apply_all (opt ∷ opts) o = apply_all opts (opt o)

unfoldable pub new_pack_options : List PackOption → PackOptions
unfolding apply_all gzip_size
new_pack_options opts = apply_all opts (record { min_gzip_size = pos 0 })

-- The test of `Pack` on the length of a body: `MinGzipSize != 0 && len(Body) >= MinGzipSize`.
unfoldable pub compresses : ℤ → ℕ → Bool
compresses (pos n) l = not (n == 0) && leb n l
compresses (negsuc n) l = true
