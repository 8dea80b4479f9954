-- ===== src/Paths/Segments.antt =====
-- Paths as their segments: what joining makes of them, and reading them back.
use Prim.Native.String.{◌++◌}
use text.Mathlib.TextLemmas.{
  nil-append, cons-append, append_assoc, head-eq_of_cons-eq, tail-eq_of_cons-eq,
}
use ch_backup.Prelude.{
  String, Bool, true, false, not, ◌&&◌, ◌||◌, ◌≡◌, refl, ap, ap₂, sym, ◌∙◌, List, [], ◌∷◌, All,
  arith, Bool-cases, inl, inr, if◌then◌else◌, length,
}
use ch_backup.Paths.{is_slash, has_slash, is_empty, join_path, starts_with_slash, ends_with_slash}
use ch_backup.Paths.Laws.{no_leading_slash, is_empty-append, has_slash_of_end}

-- A segment of a path: neither empty nor with a slash.
abbrev pub is_plain : String → Bool
is_plain s = not (is_empty s) && not (has_slash s)

abbrev pub joins : String → List String → String
joins p [] = p
joins p (a ∷ segs) = joins (join_path p a) segs

-- The segments, a slash behind each, and then a file.
abbrev pub under : List String → String → String
under [] file = file
under (a ∷ segs) file = a ++ ("/" ++ under segs file)

-- What `join_path` puts before a relative path.
abbrev pub prefix : String → String
prefix p = if is_empty p || ends_with_slash p then p else p ++ "/"

pub join-prefix : (p f : String) → starts_with_slash f ≡ false → join_path p f ≡ prefix p ++ f
unfolding join_path
join-prefix p f h = elim (Bool-cases (is_empty p || ends_with_slash p)) [
  | inl direct ↦ rw (join_path, h, direct) refl
  | inr apart ↦ rw (join_path, h, apart) (sym (append_assoc p "/" f))
]

plain-starts : (a : String) → is_plain a ≡ true → starts_with_slash a ≡ false
plain-starts a h = no_leading_slash a (ground arith)

ends-append : (p a : String) → is_empty a ≡ false → ends_with_slash (p ++ a) ≡ ends_with_slash a
ends-append String.[] a h = rw nil-append refl
ends-append (String.◌∷◌ c String.[]) a h = rw (cons-append, nil-append, h) refl
ends-append (String.◌∷◌ c (String.◌∷◌ d p)) a h =
    rw (cons-append, cons-append) (rw cons-append at (ends-append (String.◌∷◌ d p) a h))

prefix-join : (p a : String) → is_plain a ≡ true → prefix (join_path p a) ≡ prefix p ++ (a ++ "/")
prefix-join p a h =
    let full : is_empty a ≡ false = ground arith in
    let open_end : ends_with_slash a ≡ false = ground (arith, has_slash_of_end a) in
    rw
      (
        join-prefix p a (plain-starts a h),
        is_empty-append (prefix p) a full,
        ends-append (prefix p) a full,
        open_end,
      )
      (append_assoc (prefix p) a "/")

-- A file joined to segments joined to a root.
pub joins-under :
    (p : String) (segs : List String) (f : String)
    → All (λ a. is_plain a ≡ true) segs
    → starts_with_slash f ≡ false
    → join_path (joins p segs) f ≡ prefix p ++ under segs f
joins-under p [] f plain h = join-prefix p f h
joins-under p (a ∷ segs) f plain h =
    joins-under (join_path p a) segs f plain.1 h
    ∙ ap (λ q. q ++ under segs f) (prefix-join p a plain.0)
    ∙ append_assoc (prefix p) (a ++ "/") (under segs f)
    ∙ ap (λ q. prefix p ++ q) (append_assoc a "/" (under segs f))

-- Two texts cut at their first slash.
cut-injective :
    (a b f g : String)
    → has_slash a ≡ false
    → has_slash b ≡ false
    → a ++ ("/" ++ f) ≡ b ++ ("/" ++ g)
    → (a ≡ b) × (f ≡ g)
cut-injective String.[] String.[] f g h k e = (
  refl,
  tail-eq_of_cons-eq
      (rw (nil-append, nil-append, cons-append, cons-append, nil-append, nil-append) at e),
)
cut-injective String.[] (String.◌∷◌ d b) f g h k e =
    let same = head-eq_of_cons-eq (rw (nil-append, cons-append, cons-append, nil-append) at e) in
    absurd (ground (arith, ap is_slash same))
cut-injective (String.◌∷◌ c a) String.[] f g h k e =
    let same =
      head-eq_of_cons-eq
        (rw (nil-append, cons-append, cons-append, nil-append, cons-append) at e) in
    absurd (ground (arith, ap is_slash same))
cut-injective (String.◌∷◌ c a) (String.◌∷◌ d b) f g h k e =
    let e' : String.◌∷◌ c (a ++ ("/" ++ f)) ≡ String.◌∷◌ d (b ++ ("/" ++ g)) =
      sym (cons-append _ _ _) ∙ e ∙ cons-append _ _ _ in
    let (one, other) =
      cut-injective a b f g (ground arith) (ground arith) (tail-eq_of_cons-eq e') in
    (ap₂ String.◌∷◌ (head-eq_of_cons-eq e') one, other)

-- Plain segments are read back from the path.
pub under-injective :
    (xs ys : List String) (f g : String)
    → length xs ≡ length ys
    → All (λ a. is_plain a ≡ true) xs
    → All (λ a. is_plain a ≡ true) ys
    → under xs f ≡ under ys g
    → xs ≡ ys
under-injective [] [] f g n px py e = refl
under-injective [] (y ∷ ys) f g n px py e = absurd (omega arith)
under-injective (x ∷ xs) [] f g n px py e = absurd (omega arith)
under-injective (x ∷ xs) (y ∷ ys) f g n px py e =
    let (one, other) =
      cut-injective x y (under xs f) (under ys g) (ground (arith, px.0)) (ground (arith, py.0)) e in
    ap₂ ◌∷◌ one (under-injective xs ys f g (omega arith) px.1 py.1 other)
