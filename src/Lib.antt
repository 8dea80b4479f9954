-- ===== src/Lib.antt =====
-- ch-backup keeps backups of a ClickHouse server in an object storage. A backup is a metadata
-- document and the files of data parts; a part that an earlier backup already stores is not stored
-- again but linked to. This library models the parts of the program that decide which bytes and
-- files are kept.
--
-- Fifo: `BytesFIFO` of ch_backup/storage/async_pipeline/base_pipeline/bytes_fifo.py, a circular
--   buffer (`BytesFifo`; `read`, `write`, `resize` and the others by their names). `Fifo/Inv` has
--   the invariant and the queue that a buffer stands for, `Write`, `Read` and `Resize` an operation
--   each.
-- Chunking: `ChunkingStage` of .../stages/filesystem/chunking_stage.py on that buffer (`__init__` is
--   `new`, `__call__` is `call`), and the stream that `FlatMap.process` of
--   .../base_pipeline/flat_map.py makes of it. The two nested loops take fuel: the length of the
--   value for the outer loop, since each round takes a byte or more, and the size of the buffer for
--   the inner one, since each round takes a chunk.
-- RateLimiter: `RateLimiter` of .../base_pipeline/rate_limiter.py and the stage on it,
--   .../stages/storage/rate_limiter_stage.py, with the times of the clock given.
-- Sources, Sizes: ch_backup/backup/sources.py and ch_backup/calculators.py.
-- Restore: the filter of ch_backup/logic/partial_restore.py, with `fnmatch` as a parameter, the
--   states of parts in ch_backup/backup/restore_context.py with their file, and `Selection`, the
--   databases and tables that `restore` of ch_backup/ch_backup.py and ch_backup/logic/table.py takes,
--   and `Uuids`, those of them with one UUID.
-- Multipart: the stages of .../stages/storage/multipart_storage_uploading_stage.py one after another
--   (`start_all`, `upload_all` in any order of the parts, `complete`) on `S3MultipartUploader` of
--   ch_backup/storage/engine/s3/s3_multipart_uploader.py, with the client of S3 as a parameter, and
--   the sizes of `build_uploading_stage` of ch_backup/storage/async_pipeline/pipeline_builder.py.
-- Paths: the functions of Python's `os.path` and `str` that links go through.
-- Metadata: ch_backup/backup/metadata/. `PartName` is `split_part_name` and the order of parts,
--   `Part` is `PartMetadata`, `Table` is `TableMetadata`, `Backup` is `BackupMetadata` with the
--   counters `size` and `real_size`. Dictionaries are association lists in insertion order, and an
--   object that a method changes is returned beside its result. Database names are not empty.
--   `Observer` is ch_backup/logic/upload_part_observer.py.
-- Dedup: ch_backup/backup/deduplication.py, the references that a batch deletion collects
--   (`References`), and the links of a new backup (`Parts`) from the rows that the query finds.
-- Layout: `BackupLayout` of ch_backup/backup/layout.py, its methods by their names, on `Backend`:
--   the methods of `StorageLoader`, the files of the host, JSON and the encodings of text. `Names` are
--   the escapes of names (also the one of ch_backup/util.py), `Keys` the paths, `Upload`, `Download`,
--   `Backups`, `Parts` and `Cloud` the operations. `Refinement` has the layout as an instance of the
--   `Services` of Lifecycle, and what the storage promises; `Memory` is a storage for the examples.
-- Lifecycle: ch_backup/ch_backup.py, the commands `backup`, `delete` and `purge` and `_delete`. `Exec` are
--   actions on a state that may raise; what was done before stays done. `Services` is what the
--   commands use of ch_backup/backup/layout.py and of the ClickHouse client: operations on a state
--   of their own, with the laws that the commands rely on (`IsSafe`), and `Memory` is an instance.
--   `Checks` has the tests before a backup is made, and `list`. `Backup` is the command `backup` on
--   the managers of ch_backup/logic, which are given.
-- Prelude: shared names, lists, dictionaries, integers, errors.
--
-- Numbers are natural numbers, and integers where the code subtracts below zero. Bytes are numbers,
-- as they are only moved. Exceptions are values of `Error`. A start time is an
-- instant with the offset of its zone, and `isoformat` of Python's `datetime` is a parameter.
--
-- Not modelled: the lock around the commands, processes and queues of the pipeline, the calls of the
-- object storage, ClickHouse and ZooKeeper, encryption and compression (calls of libraries), logging,
-- the command line and the configuration, the callbacks of transfers, and so far the
-- rest of the command `restore`.
pub mod Prelude
pub mod Fifo
pub mod Chunking
pub mod Multipart
pub mod RateLimiter
pub mod Sources
pub mod Sizes
pub mod Restore
pub mod Paths
pub mod Metadata
pub mod Dedup
pub mod Layout
pub mod Lifecycle
