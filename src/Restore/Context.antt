-- ===== src/Restore/Context.antt =====
-- `RestoreContext` of ch_backup/backup/restore_context.py: the states of parts during a restore, kept
-- in a file so that a restore can go on after an error. The nested `defaultdict`s are dictionaries
-- whose missing keys read as empty; the file is what it was last written with, and JSON gives back
-- what was dumped.
pub mod Changed
use ch_backup.Prelude.{
  ℕ, ◌+◌, String, Bool, true, false, not, ◌&&◌, ◌==◌, leb, Option, none, some, List, [], ◌∷◌, ◌++◌,
  Dict, lookup, insert, if◌then◌else◌,
}
use ch_backup.Metadata.{PartMetadata}
use ch_backup.Dedup.References.{get_list}

pub data PartState : Type 0 where
  not_downloaded invalid downloaded restored : PartState

-- database → table → part → state
abbrev pub States : Type 0
States = Dict (Dict (Dict PartState))

pub record Failed : Type 0 where
  pub failed_paths : List String
  pub failed_parts : Dict String

pub record SavedState : Type 0 where
  pub databases : States
  pub failed : Dict (Dict Failed)

pub record RestoreContext : Type 0 where
  pub state_file : Option SavedState
  pub state_file_dump_threshold : ℕ
  pub state_updates_cnt : ℕ
  pub databases : States
  pub failed : Dict (Dict Failed)

unfoldable pub get_state : String → String → String → States → PartState
get_state db table name states = elim (lookup name (get_list table (get_list db states))) [
  | none ↦ not_downloaded
  | some state ↦ state
]

unfoldable pub set_state : String → String → String → PartState → States → States
set_state db table name state states =
    let tables = get_list db states in
    insert db (insert table (insert name state (get_list table tables)) tables) states

-- The loops of `_load_state`.
load_parts : String → String → Dict PartState → States → States
load_parts db table [] states = states
load_parts db table ((name, state) ∷ rest) states =
    load_parts db table rest (set_state db table name state states)

load_tables : String → Dict (Dict PartState) → States → States
load_tables db [] states = states
load_tables db ((table, parts) ∷ rest) states =
    load_tables db rest (load_parts db table parts states)

pub load_states : States → States → States
load_states [] states = states
load_states ((db, tables) ∷ rest) states = load_states rest (load_tables db tables states)

abbrev pub no_states : States → Bool
no_states [] = true
no_states (x ∷ xs) = false

-- The property `_databases`: the file is read while there are no states.
pub touch : RestoreContext → RestoreContext
touch c =
    if no_states c.databases
    then elim c.state_file [
      | none ↦ c
      | some saved ↦ record c { databases = load_states saved.databases [] }
    ]
    else c

-- `_part`: reading a missing key of a `defaultdict` puts it there.
pub part_state : PartMetadata → RestoreContext → PartState × RestoreContext
part_state part c =
    let c' = touch c in
    let state = get_state part.database part.table part.name c'.databases in
    (
      state,
      record c' { databases = set_state part.database part.table part.name state c'.databases },
    )

pub dump_state : RestoreContext → RestoreContext
dump_state c =
    let c' = touch c in
    record c' { state_file = some (record { databases = c'.databases; failed = c'.failed }) }

-- `_dump_state_if_need`, behind each update
pub dump_state_if_need : RestoreContext → RestoreContext
dump_state_if_need c =
    if leb c.state_file_dump_threshold (c.state_updates_cnt + 1)
    then record (dump_state (record c { state_updates_cnt = c.state_updates_cnt + 1 })) {
      state_updates_cnt = 0;
    }
    else record c { state_updates_cnt = c.state_updates_cnt + 1 }

pub change_part_state : PartState → PartMetadata → RestoreContext → RestoreContext
change_part_state state part c =
    let c' = touch c in
    dump_state_if_need
      (record c' { databases = set_state part.database part.table part.name state c'.databases })

abbrev pub get_failed : String → Dict Failed → Failed
get_failed table tables = elim (lookup table tables) [
  | none ↦ record { failed_paths = []; failed_parts = [] }
  | some failed ↦ failed
]

pub add_failed_chown : String → String → String → RestoreContext → RestoreContext
add_failed_chown db table path c =
    let tables = get_list db c.failed in
    let failed = get_failed table tables in
    dump_state_if_need (record c {
      failed =
          insert db
            (insert table (record failed { failed_paths = failed.failed_paths ++ (path ∷ []) })
              tables)
            c.failed;
    })

-- with `repr(e)`
pub add_failed_part : PartMetadata → String → RestoreContext → RestoreContext
add_failed_part part e c =
    let tables = get_list part.database c.failed in
    let failed = get_failed part.table tables in
    dump_state_if_need (record c {
      failed =
          insert part.database
            (insert part.table
              (record failed { failed_parts = insert part.name e failed.failed_parts }) tables)
            c.failed;
    })

pub has_failed_parts : RestoreContext → Bool
has_failed_parts c = elim c.failed [ [] ↦ false | _ ↦ true ]

pub part_downloaded : PartMetadata → RestoreContext → Bool × RestoreContext
part_downloaded part c =
    let (state, c') = part_state part c in (elim state [ downloaded ↦ true | _ ↦ false ], c')

pub part_restored : PartMetadata → RestoreContext → Bool × RestoreContext
part_restored part c =
    let (state, c') = part_state part c in (elim state [ restored ↦ true | _ ↦ false ], c')
