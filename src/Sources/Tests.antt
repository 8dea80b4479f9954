-- ===== src/Sources/Tests.antt =====
-- Sources for the data alone.
use ch_backup.Prelude.{true, false}
use ch_backup.Sources.{BackupSources, for_backup, for_restore}
use ch_backup.Sources.Laws.{AreMeant, sources-AreMeant}

abbrev only_data : BackupSources
only_data = record {
  access = false;
  table_data = true;
  schema = false;
  udf = false;
  named_collections = false;
  workload_entities = false;
}

sources-AreMeant_example :
    AreMeant true only_data false (for_backup only_data false)
    × AreMeant false only_data false (for_restore only_data false)
sources-AreMeant_example = sources-AreMeant only_data false
