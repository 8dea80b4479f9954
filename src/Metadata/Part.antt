-- ===== src/Metadata/Part.antt =====
-- ch_backup/backup/metadata/part_metadata.py: `PartMetadata` and its serialized form.
pub mod RoundTrip
use ch_backup.Prelude.{ℕ, String, Bool, true, false, Option, none, some, List, ◌==◌, if◌then◌else◌}
use ch_backup.Paths.{is_empty, basename, rstrip_slash}
use ch_backup.Metadata.{RawPart, PartMetadata}

-- `x or d` and `x or None`, where the empty string is false
unfoldable pub or_else : Option String → String → String
or_else none d = d
or_else (some s) d = if is_empty s then d else s

unfoldable pub or_none : Option String → Option String
or_none none = none
or_none (some s) = if is_empty s then none else some s

unfoldable pub get_or : {A : Type 0} → Option A → A → A
get_or none d = d
get_or (some x) d = x

unfoldable pub normalize_backup_link : Option String → Option String
normalize_backup_link none = none
normalize_backup_link (some raw_link) =
    if is_empty raw_link then none else some (basename (rstrip_slash raw_link))

-- `part.link` as a condition
unfoldable pub is_linked : PartMetadata → Bool
unfolding or_none
is_linked part = elim (or_none part.link) [ none ↦ false | some l ↦ true ]

-- `deduplicated_part_name`
unfoldable pub deduplicated_part_name : PartMetadata → String
unfolding or_else
deduplicated_part_name part = or_else part.link_part_name part.name

-- `disk_name`
unfoldable pub disk_name : PartMetadata → String
unfolding or_else
disk_name part = or_else part.raw_disk_name "default"

-- `PartMetadata.load`
unfoldable pub load : String → String → String → RawPart → PartMetadata
unfolding normalize_backup_link or_none get_or
load db_name table_name part_name raw = record {
  database = db_name;
  table = table_name;
  name = part_name;
  checksum = raw.checksum;
  size = raw.bytes;
  files = raw.files;
  tarball = get_or raw.tarball false;
  link = normalize_backup_link raw.link;
  link_part_name = or_none raw.link_part_name;
  raw_disk_name = some (get_or raw.disk_name "default");
  encrypted = get_or raw.encrypted true;
}

-- the dictionary that `TableMetadata.add_part` stores
unfoldable pub to_raw : PartMetadata → RawPart
unfolding disk_name
to_raw part = record {
  checksum = part.checksum;
  bytes = part.size;
  files = part.files;
  link = part.link;
  link_part_name = part.link_part_name;
  tarball = some part.tarball;
  disk_name = some (disk_name part);
  encrypted = some part.encrypted;
}

-- `FrozenPart` of ch_backup/clickhouse/models.py
pub record FrozenPart : Type 0 where
  pub database : String
  pub table : String
  pub name : String
  pub disk_name : String
  pub path : String
  pub checksum : String
  pub size : ℕ
  pub files : List String

-- `PartMetadata.from_frozen_part`
pub from_frozen_part : FrozenPart → Bool → PartMetadata
from_frozen_part frozen encrypted = record {
  database = frozen.database;
  table = frozen.table;
  name = frozen.name;
  checksum = frozen.checksum;
  size = frozen.size;
  files = frozen.files;
  tarball = true;
  link = none;
  link_part_name = none;
  raw_disk_name = some frozen.disk_name;
  encrypted = encrypted;
}
