-- ===== src/Restore/Context/Changed.antt =====
-- `change_part_state` of `RestoreContext`, as the next look at a part sees it.
use ch_backup.Prelude.{
  ◌≡◌, refl, inl, inr, ◌+◌, leb, String, Bool, ◌&&◌, ◌==◌, eq_iff, List, [], ◌∷◌, Dict, insert,
  lookup-insert, arith, Bool-cases, if◌then◌else◌,
}
use ch_backup.Metadata.{PartMetadata}
use ch_backup.Dedup.References.{get_list}
use ch_backup.Restore.Context.{
  PartState, States, RestoreContext, get_state, set_state, touch, part_state, dump_state,
  dump_state_if_need, change_part_state,
}

get_list-insert :
    {A : Type 0} (k j : String) (xs : List A) (m : Dict (List A))
    → get_list j (insert k xs m) ≡ (if k == j then xs else get_list j m)
unfolding get_list
get_list-insert k j xs m = ground (arith, lookup-insert k j xs m)

abbrev pub is_same : PartMetadata → PartMetadata → Bool
is_same p q = (p.database == q.database) && (p.table == q.table) && (p.name == q.name)

get_state-set_state :
    (p q : PartMetadata) (state : PartState) (states : States)
    → get_state q.database q.table q.name (set_state p.database p.table p.name state states)
      ≡ (if is_same p q then state else get_state q.database q.table q.name states)
unfolding get_state set_state
get_state-set_state p q state states =
    let tables = get_list p.database states in
    let parts = get_list p.table tables in
    ground (
      arith,
      get_list-insert p.database q.database (insert p.table (insert p.name state parts) tables)
          states,
      get_list-insert p.table q.table (insert p.name state parts) tables,
      lookup-insert p.name q.name state parts,
      eq_iff p.database q.database,
      eq_iff p.table q.table,
    )

some_state :
    {A : Type 0} (k : String) (v : A) (m : Dict A)
    → (x : String × A) × (rest : Dict A) × (insert k v m ≡ x ∷ rest)
unfolding insert
some_state k v [] = ((k, v), [], refl)
some_state k v ((j, w) ∷ m) = elim (Bool-cases (j == k)) [
  | inl same ↦ ((j, v), m, rw same refl)
  | inr other ↦ ((j, w), insert k v m, rw other refl)
]

touch-set_state :
    (c : RestoreContext) (p : PartMetadata) (state : PartState) (states : States)
    → c.databases ≡ set_state p.database p.table p.name state states
    → touch c ≡ c
unfolding touch set_state
touch-set_state c p state states h =
    let (x, rest, e) =
      some_state p.database
        (insert p.table (insert p.name state (get_list p.table (get_list p.database states)))
          (get_list p.database states))
        states in
    rw (h, e) refl

-- The states after the update are those that it set, whether or not they are dumped.
databases-dump :
    (c : RestoreContext)
    → touch (record c { state_updates_cnt = c.state_updates_cnt + 1 })
      ≡ record c { state_updates_cnt = c.state_updates_cnt + 1 }
    → (dump_state_if_need c).databases ≡ c.databases
unfolding dump_state_if_need dump_state
databases-dump c same =
    elim (Bool-cases (leb c.state_file_dump_threshold (c.state_updates_cnt + 1))) [
      | inl due ↦ rw (due, same) refl
      | inr early ↦ rw early refl
    ]

-- After change_part_state the part has the new state, and every other part the one it had, also
-- where the states were first read from the file, and whether or not they are then dumped.
pub part_state-change_part_state :
    (state : PartState) (p q : PartMetadata) (c : RestoreContext)
    → (part_state q (change_part_state state p c)).0
      ≡ (if is_same p q then state else (part_state q c).0)
unfolding part_state change_part_state
part_state-change_part_state state p q c =
    let states = (touch c).databases in
    let changed : RestoreContext = record (touch c) {
      databases = set_state p.database p.table p.name state states;
    } in
    let kept : (dump_state_if_need changed).databases ≡ changed.databases = databases-dump changed (
      touch-set_state (record changed { state_updates_cnt = changed.state_updates_cnt + 1 }) p state
        states refl) in
    rw (touch-set_state (dump_state_if_need changed) p state states kept, kept)
      (get_state-set_state p q state states)
