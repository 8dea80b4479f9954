-- ===== src/Multipart/Order.antt =====
-- The start of an upload, its workers and its completion, on the chunks of a stream.
use mathlib.Core.Path.{subst}
use mathlib.Core.List.{Permᴰ}
use ch_backup.Prelude.{
  ℕ, ◌≤◌, ◌<◌, ◌⊎◌, ◌≡◌, refl, ap, sym, ◌∙◌, inl, inr, leb, eqb, String, true, false, Option, none,
  some, List, [], ◌∷◌, ◌++◌, map, length, append-nil, All, All-imp, All-append, arith, ok,
}
use ch_backup.Paths.{is_empty}
use ch_backup.Chunking.Laws.{join}
use ch_backup.Chunking.Stream.{IsCut}
use ch_backup.Multipart.{
  Bytes, S3, UploadingPart, start_one, start_all, number_from, upload_one, upload_all, first_id,
  complete,
}
use ch_backup.Multipart.Sort.{Perm-All, length-Perm}
use ch_backup.Multipart.Whole.{Service, complete-stored}

-- The part of a chunk under an upload.
abbrev part_of : Option String → Bytes → UploadingPart
part_of id chunk = record { payload = chunk; upload_id = id }

module _ (s3 : S3) (service : Service s3) (chunk_size : ℕ) where
  start_all-started :
      (chunks : List Bytes) (id : String) (s : s3.State)
      → All (λ c. length c ≤ chunk_size) chunks
      → start_all s3 chunk_size chunks (some id) s ≡ ok (map (part_of (some id)) chunks, s)
  unfolding start_all start_one
  start_all-started [] id s short = refl
  start_all-started (c ∷ cs) id s short =
      let fits : leb (length c) chunk_size ≡ true = ground (arith, short.0) in
      rw (fits, start_all-started cs id s short.1) refl

  payloads :
      (id : Option String) (chunks : List Bytes)
      → map (λ p. p.payload) (map (part_of id) chunks) ≡ chunks
  payloads id [] = refl
  payloads id (c ∷ cs) = ap (λ l. c ∷ l) (payloads id cs)

  all_started :
      (id : String) (chunks : List Bytes)
      → All (λ p. p.upload_id ≡ some id) (map (part_of (some id)) chunks)
  all_started id [] = tt
  all_started id (c ∷ cs) = (refl, all_started id cs)

  -- An upload that starts with a whole chunk has every part under its identifier.
  start_all-whole :
      (c : Bytes) (cs : List Bytes) (s : s3.State)
      → length c ≡ chunk_size
      → All (λ c. length c ≤ chunk_size) cs
      → start_all s3 chunk_size (c ∷ cs) none s
        ≡ ok (
          map (part_of (some (s3.create_multipart_upload s).0)) (c ∷ cs),
          (s3.create_multipart_upload s).1,
        )
  unfolding start_all start_one
  start_all-whole c cs s e short =
      let fits : leb (length c) chunk_size ≡ true = ground (arith, e) in
      let whole : eqb (length c) chunk_size ≡ true = ground (arith, e) in
      rw
        (
          fits,
          whole,
          start_all-started cs (s3.create_multipart_upload s).0 (s3.create_multipart_upload s).1
              short,
        )
        refl

  -- One chunk that is short has no upload.
  start_all-short :
      (c : Bytes) (s : s3.State)
      → length c < chunk_size
      → start_all s3 chunk_size (c ∷ []) none s ≡ ok (part_of none c ∷ [], s)
  unfolding start_all start_one
  start_all-short c s h =
      let fits : leb (length c) chunk_size ≡ true = ground (arith, h) in
      let part : eqb (length c) chunk_size ≡ false = ground (arith, h) in rw (fits, part) refl

  -- The upload of a stream in some order of its parts.
  abbrev pub uploaded : List UploadingPart → List (ℕ × UploadingPart) → s3.State → Option Bytes
  uploaded parts order s =
      service.stored
        (complete s3 (first_id s3 parts) (upload_all s3 order (record { parts = []; client = s })))

  first_id-some :
      (c : Bytes) (cs : List Bytes) (id : String)
      → is_empty id ≡ false
      → first_id s3 (map (part_of (some id)) (c ∷ cs)) ≡ some id
  unfolding first_id
  first_id-some c cs id named = rw (named) refl

  uploaded-whole :
      (c : Bytes) (cs : List Bytes) (s : s3.State) (id : String) (order : List (ℕ × UploadingPart))
      → is_empty id ≡ false
      → Permᴰ (number_from 0 (map (part_of (some id)) (c ∷ cs))) order
      → uploaded (map (part_of (some id)) (c ∷ cs)) order s ≡ some (join (c ∷ cs))
  uploaded-whole c cs s id order named perm =
      let parts = map (part_of (some id)) (c ∷ cs) in
      ap
        (λ i.
          service.stored (complete s3 i (upload_all s3 order (record { parts = []; client = s }))))
        (first_id-some c cs id named)
      ∙ complete-stored s3 service id parts order s named (all_started id (c ∷ cs)) perm
      ∙ ap (λ l. some (join l)) (payloads (some id) (c ∷ cs))

  uploaded-short :
      (c : Bytes) (s : s3.State) (order : List (ℕ × UploadingPart))
      → Permᴰ (number_from 0 (part_of none c ∷ [])) order
      → uploaded (part_of none c ∷ []) order s ≡ some (join (c ∷ []))
  unfolding first_id complete number_from join upload_all upload_one
  uploaded-short c s [] perm = absurd (ground (arith, length-Perm (λ x. x.0) perm))
  uploaded-short c s (p ∷ q ∷ ps) perm = absurd (ground (arith, length-Perm (λ x. x.0) perm))
  uploaded-short c s (p ∷ []) perm =
      let same = Perm-All (λ x. x.0) (λ x. x.1 ≡ part_of none c) perm (refl, tt) in
      subst
        (λ part.
          service.stored (upload_one s3 (p.0, part) (record { parts = []; client = s })).client
          ≡ some (c ++ []))
        (sym same.0) (service.put_stored c s ∙ ap some (sym (append-nil c)))

  -- Where chunks cut a stream that is not empty, the start of the upload raises no error, and
  -- whatever order the workers upload the parts in, the storage holds the stream once the upload is
  -- completed, on a service that keeps the parts of an upload under their numbers and puts them
  -- together in the order that it is given.
  pub upload-stored :
      (stream : Bytes) (chunks : List Bytes) (s : s3.State)
      → IsCut chunk_size stream chunks
      → 0 < length stream
      → (parts : List UploadingPart) × (t : s3.State) × (start_all s3 chunk_size chunks none s
          ≡ ok (parts, t))
        × ((order : List (ℕ × UploadingPart))
            → Permᴰ (number_from 0 parts) order
            → uploaded parts order t ≡ some stream)
  unfolding join
  upload-stored stream chunks s cut some_bytes = go cut.full cut.last cut.even cut.short cut.parts
    where
      stream_of : (cs : List Bytes) → chunks ≡ cs → join cs ≡ stream
      stream_of cs e = ap join (sym e) ∙ cut.whole

      at_most : (c : Bytes) → length c ≡ chunk_size → length c ≤ chunk_size
      at_most c h = omega (arith, h)

      Result_of : List Bytes → Type 0
      Result_of cs =
          (parts : List UploadingPart) × (t : s3.State) × (start_all s3 chunk_size cs none s
            ≡ ok (parts, t))
          × ((order : List (ℕ × UploadingPart))
              → Permᴰ (number_from 0 parts) order
              → uploaded parts order t ≡ some stream)

      go :
          (full last : List Bytes)
          → All (λ c. length c ≡ chunk_size) full
          → ((last ≡ [])
              ⊎ ((c : List ℕ) × (last ≡ c ∷ []) × (0 < length c) × (length c < chunk_size)))
          → chunks ≡ full ++ last
          → Result_of chunks
      go [] last even (inl none_left) e =
          let empty : [] ≡ stream = stream_of [] (e ∙ none_left) in
          absurd (ground (arith, some_bytes, ap length empty))
      go [] last even (inr (c, one, filled, short)) e =
          let all : chunks ≡ c ∷ [] = e ∙ one in
          subst Result_of (sym all) (
            part_of none c ∷ [],
            s,
            start_all-short c s short,
            λ order perm. uploaded-short c s order perm ∙ ap some (stream_of (c ∷ []) all),
          )
      go (c ∷ full) last even short e =
          let id = (s3.create_multipart_upload s).0 in
          subst Result_of (sym e) (
            map (part_of (some id)) (c ∷ (full ++ last)),
            (s3.create_multipart_upload s).1,
            start_all-whole c (full ++ last) s even.0 (
                All-append (λ c. length c ≤ chunk_size) full last (All-imp at_most full even.1)
                  (last_fits last short)),
            λ order perm.
                uploaded-whole c (full ++ last) (s3.create_multipart_upload s).1 id order
                  (service.create_named s) perm
                ∙ ap some (stream_of (c ∷ (full ++ last)) e),
          )
        where
          last_fits :
              (last : List Bytes)
              → ((last ≡ [])
                  ⊎ ((c : List ℕ) × (last ≡ c ∷ []) × (0 < length c) × (length c < chunk_size)))
              → All (λ c. length c ≤ chunk_size) last
          last_fits last (inl h) = subst (All (λ c. length c ≤ chunk_size)) (sym h) tt
          last_fits last (inr (c, one, filled, short)) =
              subst (All (λ c. length c ≤ chunk_size)) (sym one) (omega (arith, short), tt)
