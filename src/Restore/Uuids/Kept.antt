-- ===== src/Restore/Uuids/Kept.antt =====
-- The tables that `_filter_duplicate_uuid` keeps.
