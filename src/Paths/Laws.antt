-- ===== src/Paths/Laws.antt =====
-- Joining paths and taking their base names.
use Prim.Native.String.{◌++◌}
use text.Mathlib.TextLemmas.{nil-append, cons-append, append_assoc}
use ch_backup.Prelude.{String, true, false, ◌||◌, ◌≡◌, refl, inl, inr, arith, Bool-cases}
use ch_backup.Paths.{
  has_slash, is_empty, rstrip_slash, basename, join_path, starts_with_slash, ends_with_slash,
}

pub has_slash-append : (p s : String) → has_slash (p ++ s) ≡ (has_slash p || has_slash s)
has_slash-append String.[] s = rw nil-append
has_slash-append (String.◌∷◌ c p) s = rw (cons-append, has_slash-append p s) (ground arith)

basename_plain : (s : String) → has_slash s ≡ false → basename s ≡ s
basename_plain String.[] h = refl
basename_plain (String.◌∷◌ c s) h = ground arith

rstrip_plain : (s : String) → has_slash s ≡ false → rstrip_slash s ≡ s
rstrip_plain String.[] h = refl
rstrip_plain (String.◌∷◌ c s) h = ground (arith, rstrip_plain s)

pub is_empty-append : (p l : String) → is_empty l ≡ false → is_empty (p ++ l) ≡ false
is_empty-append String.[] l h = rw nil-append h
is_empty-append (String.◌∷◌ c p) l h = rw cons-append

-- A path whose last component is not empty has no slash to strip.
pub rstrip_behind :
    (p l : String) → has_slash l ≡ false → is_empty l ≡ false → rstrip_slash (p ++ l) ≡ p ++ l
rstrip_behind String.[] l h k = rw nil-append (rstrip_plain l h)
rstrip_behind (String.◌∷◌ c p) l h k =
    rw (cons-append, rstrip_behind p l h k, is_empty-append p l k) (ground arith)

pub has_slash_of_end : (p : String) → ends_with_slash p ≡ true → has_slash p ≡ true
has_slash_of_end String.[] h = cc
has_slash_of_end (String.◌∷◌ c String.[]) h = ground arith
has_slash_of_end (String.◌∷◌ c (String.◌∷◌ d p)) h =
    ground (arith, has_slash_of_end (String.◌∷◌ d p) h)

-- The base name is what follows a directory that ends in a slash.
basename_behind :
    (p l : String) → ends_with_slash p ≡ true → has_slash l ≡ false → basename (p ++ l) ≡ l
basename_behind String.[] l h k = cc
basename_behind (String.◌∷◌ c String.[]) l h k = rw (cons-append, nil-append, k, h)
basename_behind (String.◌∷◌ c (String.◌∷◌ d p)) l h k =
    rw (cons-append, has_slash-append (String.◌∷◌ d p) l, has_slash_of_end (String.◌∷◌ d p) h)
      (basename_behind (String.◌∷◌ d p) l h k)

ends_with_slash-append : (p : String) → ends_with_slash (p ++ "/") ≡ true
ends_with_slash-append String.[] = refl
ends_with_slash-append (String.◌∷◌ c String.[]) = rw cons-append
ends_with_slash-append (String.◌∷◌ c (String.◌∷◌ d p)) =
    rw (cons-append, cons-append) (rw cons-append at (ends_with_slash-append (String.◌∷◌ d p)))

pub no_leading_slash : (name : String) → has_slash name ≡ false → starts_with_slash name ≡ false
no_leading_slash String.[] h = refl
no_leading_slash (String.◌∷◌ c s) h = ground arith

last_name :
    (dir name : String)
    → (is_empty dir || ends_with_slash dir) ≡ true
    → has_slash name ≡ false
    → is_empty name ≡ false
    → basename (rstrip_slash (dir ++ name)) ≡ name
last_name String.[] name e h k = rw (nil-append, rstrip_plain name h) (basename_plain name h)
last_name (String.◌∷◌ c dir) name e h k =
    rw (rstrip_behind (String.◌∷◌ c dir) name h k) (basename_behind (String.◌∷◌ c dir) name e h)

-- Joined to any directory, a plain file name is the base name of the path.
pub basename-join :
    (root name : String)
    → has_slash name ≡ false
    → is_empty name ≡ false
    → basename (rstrip_slash (join_path root name)) ≡ name
unfolding join_path
basename-join root name h k = elim (Bool-cases (is_empty root || ends_with_slash root)) [
  | inl direct ↦ rw (join_path, no_leading_slash name h, direct) (last_name root name direct h k)
  | inr apart ↦
      rw (join_path, no_leading_slash name h, apart, ← append_assoc root "/" name)
        (last_name (root ++ "/") name (ground (arith, ends_with_slash-append root)) h k)
]

-- A plain file name is its own base name.
pub basename-plain : (name : String) → has_slash name ≡ false → basename (rstrip_slash name) ≡ name
basename-plain name h = rw (rstrip_plain name h) (basename_plain name h)

pub is_empty-join :
    (root name : String) → is_empty name ≡ false → is_empty (join_path root name) ≡ false
unfolding join_path
is_empty-join root name h = ground (
  arith,
  is_empty-append root name h,
  is_empty-append "/" name h,
  is_empty-append root ("/" ++ name),
)
