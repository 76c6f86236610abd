-- ===== src/Logger.antt =====
-- go/logger.go: the default logger. A level is one more than in the source, where the lowest one is -1;
-- `lower` is `strings.ToLower`, and a line is what goes to Go's package `log`.
use openapi_protocol.Base.{
  ℕ, ◌≤◌, ◌≡◌, refl, arith, List, [], ◌∷◌, ◌++◌, leb, le→leb, if◌then◌else◌, bytes_eq,
}

abbrev pub level_debug : ℕ
level_debug = 0

abbrev pub level_info : ℕ
level_info = 2

abbrev pub level_warn : ℕ
level_warn = 3

abbrev pub level_error : ℕ
level_error = 4

pub record DefaultLogger : Type 0 where
  pub lvl : ℕ

-- The zero value, whose level is none of the four.
abbrev pub new_logger : DefaultLogger
new_logger = record { lvl = 1 }

abbrev name_info : List ℕ
name_info = 105 ∷ 110 ∷ 102 ∷ 111 ∷ []

abbrev name_debug : List ℕ
name_debug = 100 ∷ 101 ∷ 98 ∷ 117 ∷ 103 ∷ []

abbrev name_warn : List ℕ
name_warn = 119 ∷ 97 ∷ 114 ∷ 110 ∷ []

abbrev name_error : List ℕ
name_error = 101 ∷ 114 ∷ 114 ∷ 111 ∷ 114 ∷ []

-- A name that is none of the four leaves the level as it is.
unfoldable pub set_level : (List ℕ → List ℕ) → List ℕ → DefaultLogger → DefaultLogger
set_level lower name l =
    let lvl = lower name in
    if bytes_eq lvl name_info
    then record { lvl = level_info }
    else if bytes_eq lvl name_debug
    then record { lvl = level_debug }
    else if bytes_eq lvl name_warn
    then record { lvl = level_warn }
    else if bytes_eq lvl name_error
    then record { lvl = level_error }
    else l

abbrev tag_info : List ℕ
tag_info = 91 ∷ 73 ∷ 78 ∷ 70 ∷ 79 ∷ 93 ∷ []

abbrev tag_error : List ℕ
tag_error = 91 ∷ 69 ∷ 82 ∷ 82 ∷ 93 ∷ []

abbrev tag_debug : List ℕ
tag_debug = 91 ∷ 68 ∷ 69 ∷ 66 ∷ 85 ∷ 71 ∷ 93 ∷ []

abbrev tag_warn : List ℕ
tag_warn = 91 ∷ 87 ∷ 65 ∷ 82 ∷ 78 ∷ 93 ∷ []

-- A call of `log.Println` on a tag and a message, or of `log.Printf` on a format; `A` is the type of
-- the arguments of a format.
pub data Line (A : Type 0) : Type 0 where
  println : List ℕ → List ℕ → Line A
  printf : List ℕ → List A → Line A

module _ {A : Type 0} where
  unfoldable pub info : DefaultLogger → List ℕ → List (Line A)
  info l msg = if leb l.lvl level_info then println tag_info msg ∷ [] else []

  unfoldable pub infof : DefaultLogger → List ℕ → List A → List (Line A)
  infof l msg args = if leb l.lvl level_info then printf (tag_info ++ (32 ∷ msg)) args ∷ [] else []

  unfoldable pub error : DefaultLogger → List ℕ → List (Line A)
  error l msg = if leb l.lvl level_error then println tag_error msg ∷ [] else []

  unfoldable pub errorf : DefaultLogger → List ℕ → List A → List (Line A)
  errorf l msg args =
      if leb l.lvl level_error then printf (tag_error ++ (32 ∷ msg)) args ∷ [] else []

  unfoldable pub debug : DefaultLogger → List ℕ → List (Line A)
  debug l msg = if leb l.lvl level_debug then println tag_debug msg ∷ [] else []

  unfoldable pub debugf : DefaultLogger → List ℕ → List A → List (Line A)
  debugf l msg args =
      if leb l.lvl level_debug then printf (tag_debug ++ (32 ∷ msg)) args ∷ [] else []

  unfoldable pub warn : DefaultLogger → List ℕ → List (Line A)
  warn l msg = if leb l.lvl level_warn then println tag_warn msg ∷ [] else []

  unfoldable pub warnf : DefaultLogger → List ℕ → List A → List (Line A)
  warnf l msg args = if leb l.lvl level_warn then printf (tag_warn ++ (32 ∷ msg)) args ∷ [] else []

-- Calls of `SetLevel`, the first one first.
unfoldable pub set_levels : (List ℕ → List ℕ) → List (List ℕ) → DefaultLogger → DefaultLogger
set_levels lower [] l = l
set_levels lower (name ∷ names) l = set_levels lower names (set_level lower name l)

module _ (lower : List ℕ → List ℕ) where
  lvl-set_level :
      (name : List ℕ) (l : DefaultLogger)
      → l.lvl ≤ level_error
      → (set_level lower name l).lvl ≤ level_error
  unfolding set_level
  lvl-set_level name l le = ground arith

  lvl-set_levels :
      (names : List (List ℕ)) (l : DefaultLogger)
      → l.lvl ≤ level_error
      → (set_levels lower names l).lvl ≤ level_error
  unfolding set_levels
  lvl-set_levels [] l le = le
  lvl-set_levels (name ∷ names) l le =
      lvl-set_levels names (set_level lower name l) (lvl-set_level name l le)

  -- Whatever levels are set on a new logger, by any names, it prints every error.
  pub error-set_levels :
      {A : Type 0} (names : List (List ℕ)) (msg : List ℕ) (args : List A)
      → let l = set_levels lower names new_logger in
        (error {A = A} l msg ≡ println tag_error msg ∷ [])
        × (errorf l msg args ≡ printf (tag_error ++ (32 ∷ msg)) args ∷ [])
  unfolding error errorf
  error-set_levels names msg args =
      let le = lvl-set_levels names new_logger (omega arith) in
      let prints = le→leb _ level_error le in (rw prints refl, rw prints refl)
