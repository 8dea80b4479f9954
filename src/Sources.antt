-- ===== src/Sources.antt =====
-- ch_backup/backup/sources.py: which kinds of objects a backup or a restore is about.
pub mod Laws
mod Tests
use ch_backup.Prelude.{Bool, true, false, not, ◌&&◌, ◌||◌, if◌then◌else◌}

pub record BackupSources : Type 0 where
  pub access : Bool
  pub table_data : Bool
  pub schema : Bool
  pub udf : Bool
  pub named_collections : Bool
  pub workload_entities : Bool

-- `any([...])` of the flags
abbrev pub is_any : BackupSources → Bool
is_any s =
    s.access || s.table_data || s.schema || s.udf || s.named_collections || s.workload_entities

-- The flags of the call as a record, and `schema_only`.
pub for_backup : BackupSources → Bool → BackupSources
for_backup flags only =
    if is_any flags then record flags { schema = flags.table_data || flags.schema } else record {
      access = true;
      table_data = not only;
      schema = true;
      udf = true;
      named_collections = true;
      workload_entities = true;
    }

pub for_restore : BackupSources → Bool → BackupSources
for_restore flags only =
    if is_any flags then record flags { schema = flags.table_data || flags.schema } else record {
      access = false;
      table_data = not only;
      schema = true;
      udf = true;
      named_collections = true;
      workload_entities = true;
    }

pub schemas_included : BackupSources → Bool
schemas_included s = s.table_data || s.schema

pub schema_only : BackupSources → Bool
schema_only s = s.schema && not s.table_data
