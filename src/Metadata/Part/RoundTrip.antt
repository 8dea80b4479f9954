-- ===== src/Metadata/Part/RoundTrip.antt =====
-- Storing a part in the metadata and loading it again.
use ch_backup.Prelude.{String, false, ◌≡◌, refl, Option, none, some}
use ch_backup.Paths.{is_empty, has_slash}
use ch_backup.Paths.Laws.{basename-plain}
use ch_backup.Metadata.Part.{normalize_backup_link}

-- A name as the code writes it into `link` and `link_part_name`: none, or not empty and no path.
abbrev pub IsPlain : Option String → Type 0
IsPlain none = Unit
IsPlain (some s) = (is_empty s ≡ false) × (has_slash s ≡ false)

abbrev pub IsName : Option String → Type 0
IsName none = Unit
IsName (some s) = is_empty s ≡ false

pub normalize_plain : (link : Option String) → IsPlain link → normalize_backup_link link ≡ link
unfolding normalize_backup_link
normalize_plain none h = refl
normalize_plain (some s) h = rw (h.0, basename-plain s h.1)
