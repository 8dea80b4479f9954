-- ===== src/Restore/Filter.antt =====
-- `PartialRestoreFilter` of ch_backup/logic/partial_restore.py. `fnmatch.fnmatch` is a parameter.
use Prim.Native.Char.{code}
use ch_backup.Prelude.{
  ◌≡◌, refl, String, Bool, true, false, not, ◌&&◌, ◌==◌, eqb, exists_in, arith, Option, none, some,
  List, [], ◌∷◌, if◌then◌else◌, Result, ok, err, ◌>>=◌, value_error,
}

pub record PartialRestorePattern : Type 0 where
  pub database : String
  pub table_pattern : String

-- `pattern.split(".", 1)`, with no second piece if there is no dot
unfoldable pub split_dot : String → String × Option String
split_dot String.[] = (String.[], none)
split_dot (String.◌∷◌ c s) =
    let (before, after) = split_dot s in
    if eqb (code c) b'.' then (String.[], some s) else (String.◌∷◌ c before, after)

-- `PartialRestorePattern.from_pattern`; unpacking one piece into two names raises
unfoldable pub from_pattern : String → Result PartialRestorePattern
unfolding split_dot
from_pattern pattern =
    let (db, table) = split_dot pattern in
    elim table [
      | none ↦ err value_error
      | some t ↦ ok (record { database = db; table_pattern = t })
    ]

pub from_patterns : List String → Result (List PartialRestorePattern)
from_patterns [] = ok []
from_patterns (pattern ∷ patterns) = do
  first ← from_pattern pattern
  rest ← from_patterns patterns
  ok (first ∷ rest)

pub record PartialRestoreFilter : Type 0 where
  pub inverted : Bool
  pub patterns : List PartialRestorePattern

-- `__init__`
pub new : Bool → List String → Result PartialRestoreFilter
new inverted patterns = do
  parsed ← from_patterns patterns
  ok (record { inverted = inverted; patterns = parsed })

pub related_to_db : String → PartialRestorePattern → Bool
related_to_db db pattern = pattern.database == db

pub is_empty : PartialRestoreFilter → Bool
is_empty filter = elim filter.patterns [ [] ↦ true | _ ↦ false ]

module _ (fnmatch : String → String → Bool) where
  pub matches : String → String → PartialRestorePattern → Bool
  matches db table pattern =
      if not (pattern.database == db) then false else fnmatch table pattern.table_pattern

  -- The loop of `accept_table`.
  first_match : Bool → String → String → List PartialRestorePattern → Bool
  first_match inverted db table [] = inverted
  first_match inverted db table (pattern ∷ patterns) =
      if matches db table pattern then not inverted else first_match inverted db table patterns

  pub accept_table : String → String → PartialRestoreFilter → Bool
  unfolding is_empty
  accept_table db table filter =
      if is_empty filter then true else first_match filter.inverted db table filter.patterns

  -- A pattern, by its two texts.
  abbrev pub is_of : String → String → PartialRestorePattern → Bool
  is_of db table pattern = (pattern.database == db) && fnmatch table pattern.table_pattern

  -- What a filter is to take, by its patterns.
  abbrev pub takes : Bool → String → String → List PartialRestorePattern → Bool
  takes inverted db table [] = true
  takes inverted db table (pattern ∷ patterns) =
      if exists_in (is_of db table) (pattern ∷ patterns) then not inverted else inverted

  first_match-any :
      (inverted : Bool) (db table : String) (patterns : List PartialRestorePattern)
      → first_match inverted db table patterns
        ≡ (if exists_in (is_of db table) patterns then not inverted else inverted)
  unfolding first_match matches
  first_match-any inverted db table [] = refl
  first_match-any inverted db table (p ∷ ps) = ground (arith, first_match-any inverted db table ps)

  accept_table-takes :
      (inverted : Bool) (db table : String) (patterns : List PartialRestorePattern)
      → accept_table db table (record { inverted = inverted; patterns = patterns })
        ≡ takes inverted db table patterns
  unfolding accept_table is_empty
  accept_table-takes inverted db table [] = refl
  accept_table-takes inverted db table (p ∷ ps) = first_match-any inverted db table (p ∷ ps)

  -- A filter takes every table if it has no patterns, and else the tables of which some pattern has
  -- the database and matches the name by fnmatch, or those of which none does if it is inverted.
  pub accept_table-any :
      (db table : String) (filter : PartialRestoreFilter)
      → accept_table db table filter ≡ takes filter.inverted db table filter.patterns
  accept_table-any db table filter = accept_table-takes filter.inverted db table filter.patterns
