-- ===== src/Paths.antt =====
-- The parts of Python's `os.path` (POSIX) and of `str` that the storage paths go through. A path is
-- walked character by character.
pub mod Laws
pub mod Segments
use Prim.Native.Char.{Char, code}
use Prim.Native.String.{◌++◌}
use ch_backup.Prelude.{String, Bool, true, false, ◌&&◌, ◌||◌, eqb, if◌then◌else◌}

abbrev pub is_slash : Char → Bool
is_slash c = eqb (code c) b'/'

-- "/" in s
abbrev pub has_slash : String → Bool
has_slash String.[] = false
has_slash (String.◌∷◌ c s) = is_slash c || has_slash s

-- not s
abbrev pub is_empty : String → Bool
is_empty String.[] = true
is_empty (String.◌∷◌ c s) = false

-- s.rstrip("/")
abbrev pub rstrip_slash : String → String
rstrip_slash String.[] = String.[]
rstrip_slash (String.◌∷◌ c s) =
    let rest = rstrip_slash s in
    if is_slash c && is_empty rest then String.[] else String.◌∷◌ c rest

-- s.lstrip("/")
abbrev pub lstrip_slash : String → String
lstrip_slash String.[] = String.[]
lstrip_slash (String.◌∷◌ c s) = if is_slash c then lstrip_slash s else String.◌∷◌ c s

-- os.path.basename: what follows the last slash
abbrev pub basename : String → String
basename String.[] = String.[]
basename (String.◌∷◌ c s) =
    let rest = basename s in if has_slash s then rest else if is_slash c then s else String.◌∷◌ c s

-- up to the last slash, with it
abbrev pub upto_slash : String → String
upto_slash String.[] = String.[]
upto_slash (String.◌∷◌ c s) =
    let rest = upto_slash s in
    if has_slash s
    then String.◌∷◌ c rest
    else if is_slash c
    then String.◌∷◌ c String.[]
    else String.[]

-- os.path.dirname: what precedes the last slash, less slashes at its end unless it has no others
abbrev pub dirname : String → String
dirname p =
    let head = upto_slash p in
    let stripped = rstrip_slash head in if is_empty stripped then head else stripped

abbrev pub starts_with_slash : String → Bool
starts_with_slash String.[] = false
starts_with_slash (String.◌∷◌ c s) = is_slash c

abbrev pub ends_with_slash : String → Bool
ends_with_slash String.[] = false
ends_with_slash (String.◌∷◌ c s) = if is_empty s then is_slash c else ends_with_slash s

-- os.path.join of two
unfoldable pub join_path : String → String → String
join_path a b =
    if starts_with_slash b
    then b
    else if is_empty a || ends_with_slash a
    then a ++ b
    else a ++ ("/" ++ b)
