-- ===== src/Layout/Keys/Own.antt =====
-- The keys under which the storage keeps the files of backups and parts. The storage leaves out
-- slashes at the start of a path.
use Prim.Native.String.{◌++◌}
use text.Mathlib.TextLemmas.{nil-append, cons-append, append_assoc, append_cancel_left}
use ch_backup.Prelude.{
  String, Bool, true, false, not, ◌&&◌, ◌≡◌, refl, ap, sym, ◌∙◌, List, [], ◌∷◌, All, arith,
  Bool-cases, inl, inr,
}
use ch_backup.Paths.{is_slash, is_empty, join_path, starts_with_slash, lstrip_slash, rstrip_slash}
use ch_backup.Paths.Laws.{rstrip_behind, no_leading_slash}
use ch_backup.Paths.Segments.{
  is_plain, joins, under, prefix, join-prefix, joins-under, under-injective,
}
use ch_backup.Layout.Names.Plain.{has_percent, form, form-IsPlain, form-injective}
use ch_backup.Layout.Keys.{get_backup_path, part_path}

-- A text that starts with something else than a slash.
abbrev pub is_relative : String → Bool
is_relative s = not (is_empty s) && not (starts_with_slash s)

lstrip-append : (p s : String) → is_relative s ≡ true → lstrip_slash (p ++ s) ≡ lstrip_slash p ++ s
lstrip-append String.[] String.[] h = absurd (cc h)
lstrip-append String.[] (String.◌∷◌ c s) h = rw nil-append (ground arith)
lstrip-append (String.◌∷◌ c p) s h = elim (Bool-cases (is_slash c)) [
  | inl slash ↦ rw (cons-append, slash) (lstrip-append p s h)
  | inr other ↦ rw (cons-append, other) (sym (cons-append _ _ _))
]

lstrip_idem : (p : String) → lstrip_slash (lstrip_slash p) ≡ lstrip_slash p
lstrip_idem String.[] = refl
lstrip_idem (String.◌∷◌ c p) = elim (Bool-cases (is_slash c)) [
  | inl slash ↦ rw slash (lstrip_idem p)
  | inr other ↦ rw (other, lstrip_slash) (rw other refl)
]

plain-append-IsRelative : (a s : String) → is_plain a ≡ true → is_relative (a ++ s) ≡ true
plain-append-IsRelative String.[] s h = cc
plain-append-IsRelative (String.◌∷◌ c a) s h = rw cons-append (ground arith)

plain-IsRelative : (a : String) → is_plain a ≡ true → is_relative a ≡ true
plain-IsRelative a h = ground (arith, no_leading_slash a)

-- The segments of the directory of a part.
abbrev pub part_segments : String → String → String → String → Bool → List String
part_segments b d t n e = b ∷ "data" ∷ form e d ∷ form e t ∷ n ∷ []

-- The names of a backup or a part, and those of a database or a table.
abbrev pub is_table_name : String → Bool
is_table_name s = is_plain s && not (has_percent s)

-- The names of a part that make segments of its path.
pub record AreNames (b d t n : String) : Type 0 where
  pub backup : is_plain b ≡ true
  pub database : is_table_name d ≡ true
  pub table : is_table_name t ≡ true
  pub name : is_plain n ≡ true

module _ (path_root : String) where
  -- What the storage makes of the path of a file.
  abbrev pub key_under : List String → String → String
  key_under segs file = lstrip_slash (prefix path_root) ++ under segs file

  file_key :
      (seg : String) (segs : List String) (f : String)
      → All (λ a. is_plain a ≡ true) (seg ∷ segs)
      → starts_with_slash f ≡ false
      → lstrip_slash (join_path (joins path_root (seg ∷ segs)) f) ≡ key_under (seg ∷ segs) f
  file_key seg segs f plain h =
      ap lstrip_slash (joins-under path_root (seg ∷ segs) f plain h)
      ∙ lstrip-append (prefix path_root) (under (seg ∷ segs) f)
          (plain-append-IsRelative seg ("/" ++ under segs f) plain.0)

  part_path-joins :
      (b d t n : String) (e : Bool)
      → part_path (get_backup_path path_root b) d t n e ≡ joins path_root (part_segments b d t n e)
  unfolding part_path get_backup_path
  part_path-joins b d t n true = refl
  part_path-joins b d t n false = refl

  segments-plain :
      (b d t n : String) (e : Bool)
      → AreNames b d t n
      → All (λ a. is_plain a ≡ true) (part_segments b d t n e)
  segments-plain b d t n e names = (
    names.backup,
    (
      refl,
      (
        form-IsPlain e d (ground (arith, names.database)),
        (form-IsPlain e t (ground (arith, names.table)), (names.name, tt)),
      ),
    ),
  )

  pub part_key :
      (b d t n : String) (e : Bool) (f : String)
      → AreNames b d t n
      → starts_with_slash f ≡ false
      → lstrip_slash (join_path (part_path (get_backup_path path_root b) d t n e) f)
        ≡ key_under (part_segments b d t n e) f
  part_key b d t n e f names h =
      ap (λ p. lstrip_slash (join_path p f)) (part_path-joins b d t n e)
      ∙ file_key b ("data" ∷ form e d ∷ form e t ∷ n ∷ []) f (segments-plain b d t n e names) h

  -- One key belongs to one part.
  pub part_key-injective :
      (b d t n b' d' t' n' : String) (e e' : Bool) (f f' : String)
      → AreNames b d t n
      → AreNames b' d' t' n'
      → key_under (part_segments b d t n e) f ≡ key_under (part_segments b' d' t' n' e') f'
      → (b ≡ b') × (d ≡ d') × (t ≡ t') × (n ≡ n')
  part_key-injective b d t n b' d' t' n' e e' f f' names names' h =
      let same : part_segments b d t n e ≡ part_segments b' d' t' n' e' =
        under-injective _ _ f f' refl (segments-plain b d t n e names)
          (segments-plain b' d' t' n' e' names') (append_cancel_left _ _ _ h) in
      (
        cc same,
        form-injective e e' d d' (ground (arith, names.database)) (ground (arith, names'.database))
            (cc same),
        form-injective e e' t t' (ground (arith, names.table)) (ground (arith, names'.table))
            (cc same),
        cc same,
      )

  -- What the storage lists behind the directory of a backup.
  pub listed_key :
      (name rest : String)
      → is_plain name ≡ true
      → lstrip_slash (rstrip_slash (lstrip_slash (get_backup_path path_root name)) ++ ("/" ++ rest))
        ≡ key_under (name ∷ []) rest
  unfolding get_backup_path
  listed_key name rest plain =
      let closed : rstrip_slash (lstrip_slash (join_path path_root name))
          ≡ lstrip_slash (prefix path_root) ++ name =
        ap (λ p. rstrip_slash (lstrip_slash p))
          (join-prefix path_root name (no_leading_slash name (ground arith)))
        ∙ ap rstrip_slash (lstrip-append (prefix path_root) name (plain-IsRelative name plain))
        ∙ rstrip_behind (lstrip_slash (prefix path_root)) name (ground arith) (ground arith) in
      ap (λ p. lstrip_slash (p ++ ("/" ++ rest))) closed
      ∙ ap lstrip_slash (append_assoc (lstrip_slash (prefix path_root)) name ("/" ++ rest))
      ∙ lstrip-append (lstrip_slash (prefix path_root)) (name ++ ("/" ++ rest))
          (plain-append-IsRelative name ("/" ++ rest) plain)
      ∙ ap (λ p. p ++ (name ++ ("/" ++ rest))) (lstrip_idem (prefix path_root))

  pub listed_key-injective :
      (name rest b d t n : String) (e : Bool) (f : String)
      → is_plain name ≡ true
      → is_plain b ≡ true
      → key_under (name ∷ []) rest ≡ key_under (part_segments b d t n e) f
      → name ≡ b
  listed_key-injective name rest b d t n e f plain plain' h =
      let same : (name ∷ []) ≡ (b ∷ []) =
        under-injective (name ∷ []) (b ∷ []) rest (under ("data" ∷ form e d ∷ form e t ∷ n ∷ []) f)
          refl (plain, tt) (plain', tt) (append_cancel_left _ _ _ h) in
      cc same

  -- A document in the directory of a backup belongs to that backup.
  pub document-injective :
      (name other f g : String)
      → is_plain name ≡ true
      → is_plain other ≡ true
      → starts_with_slash f ≡ false
      → starts_with_slash g ≡ false
      → join_path (get_backup_path path_root name) f ≡ join_path (get_backup_path path_root other) g
      → name ≡ other
  unfolding get_backup_path
  document-injective name other f g plain plain' hf hg h =
      let same : (name ∷ []) ≡ (other ∷ []) =
        under-injective (name ∷ []) (other ∷ []) f g refl (plain, tt) (plain', tt)
          (append_cancel_left _ _ _ (
            sym (joins-under path_root (name ∷ []) f (plain, tt) hf)
            ∙ h
            ∙ joins-under path_root (other ∷ []) g (plain', tt) hg)) in
      cc same
