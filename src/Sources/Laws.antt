-- ===== src/Sources/Laws.antt =====
-- `for_backup` and `for_restore` of `BackupSources`, kind by kind.
use ch_backup.Prelude.{◌≡◌, inl, inr, Bool, true, false, not, ◌&&◌, ◌||◌, Bool-cases, arith}
use ch_backup.Sources.{
  BackupSources, is_any, for_backup, for_restore, schemas_included, schema_only,
}

-- No flag is given.
abbrev pub nothing_asked : BackupSources → Bool
nothing_asked s =
    not s.access
    && not s.table_data
    && not s.schema
    && not s.udf
    && not s.named_collections
    && not s.workload_entities

-- What the flags and the old flag for schemas stand for: a kind is taken if it is asked for, or by
-- default if nothing is. Schemas come with the data, and the old flag counts only by default.
pub record AreMeant (access_by_default : Bool) (flags : BackupSources) (only : Bool)
    (s : BackupSources) : Type 0 where
  pub access_meant : s.access ≡ (flags.access || (nothing_asked flags && access_by_default))
  pub data_meant : s.table_data ≡ (flags.table_data || (nothing_asked flags && not only))
  pub schema_meant : s.schema ≡ (flags.schema || (flags.table_data || nothing_asked flags))
  pub udf_meant : s.udf ≡ (flags.udf || nothing_asked flags)
  pub collections_meant : s.named_collections ≡ (flags.named_collections || nothing_asked flags)
  pub workload_meant : s.workload_entities ≡ (flags.workload_entities || nothing_asked flags)
  -- what the steps of a command ask of the sources
  pub with_schema : schemas_included s ≡ s.schema
  pub only_schema :
      schema_only s ≡ (not flags.table_data && (flags.schema || (nothing_asked flags && only)))

-- A backup and a restore take each kind of object that is asked for, and schemas with the data; if
-- nothing is asked for they take all kinds, the backup alone those of access control, and the data
-- only without the flag for schemas alone; schemas are included as they are taken, and they are
-- taken without data just if they or that flag are asked for and the data are not.
pub sources-AreMeant :
    (flags : BackupSources) (only : Bool)
    → AreMeant true flags only (for_backup flags only)
      × AreMeant false flags only (for_restore flags only)
unfolding for_backup for_restore schemas_included schema_only
sources-AreMeant flags only = elim (Bool-cases (is_any flags)) [
  | inl asked ↦ rw asked (meant true asked, meant false asked)
  | inr none_asked ↦ rw none_asked (by_default true none_asked, by_default false none_asked)
]
  where
    meant :
        (access : Bool)
        → is_any flags ≡ true
        → AreMeant access flags only (record flags { schema = flags.table_data || flags.schema })
    meant access asked = record {
      access_meant = ground (arith, asked);
      data_meant = ground (arith, asked);
      schema_meant = ground (arith, asked);
      udf_meant = ground (arith, asked);
      collections_meant = ground (arith, asked);
      workload_meant = ground (arith, asked);
      with_schema = ground arith;
      only_schema = ground (arith, asked);
    }

    by_default :
        (access : Bool)
        → is_any flags ≡ false
        → AreMeant access flags only (record {
          access = access;
          table_data = not only;
          schema = true;
          udf = true;
          named_collections = true;
          workload_entities = true;
        })
    by_default access none_asked = record {
      access_meant = ground (arith, none_asked);
      data_meant = ground (arith, none_asked);
      schema_meant = ground (arith, none_asked);
      udf_meant = ground (arith, none_asked);
      collections_meant = ground (arith, none_asked);
      workload_meant = ground (arith, none_asked);
      with_schema = ground arith;
      only_schema = ground (arith, none_asked);
    }
