-- ===== src/Multipart.antt =====
-- The last stages of an upload: ch_backup/storage/async_pipeline/stages/storage/
-- multipart_storage_uploading_stage.py on `S3MultipartUploader` of
-- ch_backup/storage/engine/s3/s3_multipart_uploader.py, and the size of the chunks that they are
-- given, from `build_uploading_stage` of pipeline_builder.py. One worker starts the upload and one
-- completes it, both in the order of the chunks; the workers between them upload the parts in any
-- order. The stages run one after another here.
pub mod Sort
pub mod Whole
pub mod Order
mod Tests
use ch_backup.Prelude.{
  ℕ, zero, suc, ◌+◌, ◌*◌, ◌/◌, ltb, leb, eqb, String, Bool, true, false, not, ◌&&◌, Option, none,
  some, List, [], ◌∷◌, ◌++◌, map, length, if◌then◌else◌, Result, ok, err, ◌>>=◌, assertion_error,
}
use ch_backup.Paths.{is_empty}
use ch_backup.Sizes.{ceil_div}

abbrev pub Bytes : Type 0
Bytes = List ℕ

-- The calls of the S3 client for one remote path. `Tag` is what it gives back for a part, and the
-- parts of an upload go to it with their numbers.
pub record S3 : Type 1 where
  pub State : Type 0
  pub Tag : Type 0
  pub put_object : Bytes → State → State
  pub create_multipart_upload : State → String × State
  pub upload_part : String → ℕ → Bytes → State → Tag × State
  pub complete_multipart_upload : String → List (ℕ × Tag) → State → State

-- `UploadingPart`
pub record UploadingPart : Type 0 where
  pub payload : Bytes
  pub upload_id : Option String

-- `build_uploading_stage`: the chunk size and the buffer size for a source of a size,
-- with exact divisions
unfoldable pub upload_sizes : ℕ → ℕ → ℕ → ℕ → ℕ × ℕ
upload_sizes max_chunk_count chunk_size buffer_size source_size =
    if ltb chunk_size source_size && ltb (max_chunk_count * chunk_size) source_size
    then (let multiplier = ceil_div source_size (chunk_size * max_chunk_count) in
        (chunk_size * multiplier, buffer_size * multiplier))
    else (chunk_size, buffer_size)

-- `sorted(parts, key=operator.itemgetter("PartNumber"))`
module _ {ℓ} {A : Type ℓ} (number : A → ℕ) where
  unfoldable pub put_part : A → List A → List A
  put_part x [] = x ∷ []
  put_part x (y ∷ ys) =
      let rest = put_part x ys in if leb (number x) (number y) then x ∷ y ∷ ys else y ∷ rest

  unfoldable pub sort_parts : List A → List A
  sort_parts [] = []
  sort_parts (x ∷ xs) = put_part x (sort_parts xs)

-- `StartMultipartUploadStage.__call__` on the chunks of a stream: the parts, and the upload that has
-- been started, which is the stage's `_upload_id`.
module _ (s3 : S3) (chunk_size : ℕ) where
  unfoldable pub start_one : Bytes → Option String → s3.State → Option String × s3.State
  start_one chunk (some id) s = (some id, s)
  start_one chunk none s =
      if eqb (length chunk) chunk_size
      then (let (id, s') = s3.create_multipart_upload s in (some id, s'))
      else (none, s)

  unfoldable pub start_all :
      List Bytes → Option String → s3.State → Result (List UploadingPart × s3.State)
  start_all [] upload_id s = ok ([], s)
  start_all (chunk ∷ chunks) upload_id s =
      if leb (length chunk) chunk_size
      then (let (id, s') = start_one chunk upload_id s in
          start_all chunks id s' >>= λ later.
          ok (record { payload = chunk; upload_id = id } ∷ later.0, later.1))
      else err assertion_error

-- The number of each part: `index + 1`.
unfoldable pub number_from : ℕ → List UploadingPart → List (ℕ × UploadingPart)
number_from index [] = []
number_from index (part ∷ parts) = (index + 1, part) ∷ number_from (index + 1) parts

module _ (s3 : S3) where
  -- What `S3MultipartUploader` keeps of an upload, `_uploads[upload_id]["Parts"]`, with the client.
  pub record Uploads : Type 0 where
    pub parts : List (ℕ × s3.Tag)
    pub client : s3.State

  -- `StorageUploadingStage.__call__`; an empty identifier counts as none
  unfoldable pub upload_one : ℕ × UploadingPart → Uploads → Uploads
  upload_one (number, part) u = elim part.upload_id [
    | none ↦ record u { client = s3.put_object part.payload u.client }
    | some id ↦
        if is_empty id
        then record u { client = s3.put_object part.payload u.client }
        else (let (tag, s) = s3.upload_part id number part.payload u.client in
            record { parts = u.parts ++ ((number, tag) ∷ []); client = s })
  ]

  unfoldable pub upload_all : List (ℕ × UploadingPart) → Uploads → Uploads
  upload_all [] u = u
  upload_all (p ∷ ps) u = upload_all ps (upload_one p u)

  -- `CompleteMultipartUploadStage`: the first identifier that it is given
  unfoldable pub first_id : List UploadingPart → Option String
  first_id [] = none
  first_id (part ∷ parts) =
      let rest = first_id parts in
      elim part.upload_id [ none ↦ rest | some id ↦ if is_empty id then rest else some id ]

  -- `on_done`, and `complete_multipart_upload` of the uploader
  unfoldable pub complete : Option String → Uploads → s3.State
  complete none u = u.client
  complete (some id) u = s3.complete_multipart_upload id (sort_parts (λ p. p.0) u.parts) u.client
