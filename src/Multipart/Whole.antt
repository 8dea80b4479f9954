-- ===== src/Multipart/Whole.antt =====
-- The object that an upload leaves in the storage.
use mathlib.Core.Path.{subst}
use mathlib.Core.List.{Permᴰ}
use ch_backup.Prelude.{
  ℕ, ◌+◌, ◌≡◌, refl, ap, ap₂, sym, ◌∙◌, inl, inr, leb, eqb, String, false, Option, some, List, [],
  ◌∷◌, ◌++◌, map, append_assoc, append-nil, All, Bool-cases,
}
use ch_backup.Paths.{is_empty}
use ch_backup.Chunking.Laws.{join}
use ch_backup.Multipart.{
  Bytes, S3, UploadingPart, number_from, Uploads, upload_one, upload_all, complete, put_part,
  sort_parts,
}
use ch_backup.Multipart.Sort.{
  AreDistinct, Perm-All, Perm-AreDistinct, sort_parts-Perm, number_from-AreDistinct,
  sort_parts-number_from,
}

-- What the S3 service promises, of the object at the path and of the parts that an upload has.
pub record Service (s3 : S3) : Type 0 where
  pub stored : s3.State → Option Bytes
  pub body : s3.State → String → ℕ → s3.Tag → Option Bytes
  pub put_stored : (bytes : Bytes) (s : s3.State) → stored (s3.put_object bytes s) ≡ some bytes
  pub create_named : (s : s3.State) → is_empty (s3.create_multipart_upload s).0 ≡ false
  pub upload_body :
      (id : String) (n : ℕ) (bytes : Bytes) (s : s3.State)
      → body (s3.upload_part id n bytes s).1 id n (s3.upload_part id n bytes s).0 ≡ some bytes
  pub upload_keeps :
      (id : String) (n : ℕ) (bytes : Bytes) (s : s3.State) (k : ℕ) (tag : s3.Tag) (kept : Bytes)
      → eqb k n ≡ false
      → body s id k tag ≡ some kept
      → body (s3.upload_part id n bytes s).1 id k tag ≡ some kept
  pub complete_stored :
      (id : String) (parts : List (ℕ × s3.Tag × Bytes)) (s : s3.State)
      → All (λ p. body s id p.0 p.1 ≡ some p.2) parts
      → stored (s3.complete_multipart_upload id (map (λ p. (p.0, p.1)) parts) s)
        ≡ some (join (map (λ p. p.2) parts))

module _ (s3 : S3) (service : Service s3) (id : String) where
  -- A part that the uploader keeps, against one that it was given.
  record IsOf (s : s3.State) (kept : ℕ × s3.Tag) (given : ℕ × UploadingPart) : Type 0 where
    number : kept.0 ≡ given.0
    there : service.body s id kept.0 kept.1 ≡ some given.1.payload

  AreOf : s3.State → List (ℕ × s3.Tag) → List (ℕ × UploadingPart) → Type 0
  AreOf s [] [] = Unit
  AreOf s [] (g ∷ gs) = ⊥
  AreOf s (k ∷ ks) [] = ⊥
  AreOf s (k ∷ ks) (g ∷ gs) = IsOf s k g × AreOf s ks gs

  AreOf-append :
      (s : s3.State) (ks : List (ℕ × s3.Tag)) (gs : List (ℕ × UploadingPart)) (k : ℕ × s3.Tag)
      (g : ℕ × UploadingPart)
      → AreOf s ks gs
      → IsOf s k g
      → AreOf s (ks ++ (k ∷ [])) (gs ++ (g ∷ []))
  unfolding AreOf
  AreOf-append s [] [] k g of one = (one, tt)
  AreOf-append s [] (g' ∷ gs) k g of one = absurd of
  AreOf-append s (k' ∷ ks) [] k g of one = absurd of
  AreOf-append s (k' ∷ ks) (g' ∷ gs) k g of one = (of.0, AreOf-append s ks gs k g of.1 one)

  -- An upload under another number.
  AreOf-upload :
      (s : s3.State) (ks : List (ℕ × s3.Tag)) (gs : List (ℕ × UploadingPart)) (n : ℕ)
      (bytes : Bytes)
      → All (λ g. eqb g.0 n ≡ false) gs
      → AreOf s ks gs
      → AreOf (s3.upload_part id n bytes s).1 ks gs
  unfolding AreOf
  AreOf-upload s [] [] n bytes other of = tt
  AreOf-upload s [] (g ∷ gs) n bytes other of = absurd of
  AreOf-upload s (k ∷ ks) [] n bytes other of = absurd of
  AreOf-upload s (k ∷ ks) (g ∷ gs) n bytes other of = (
    record {
      number = of.0.number;
      there =
          service.upload_keeps id n bytes s k.0 k.1 g.1.payload
            (ap (λ x. eqb x n) of.0.number ∙ other.0) of.0.there;
    },
    AreOf-upload s ks gs n bytes other.1 of.1,
  )

  put_part-AreOf :
      (s : s3.State) (k : ℕ × s3.Tag) (g : ℕ × UploadingPart) (ks : List (ℕ × s3.Tag))
      (gs : List (ℕ × UploadingPart))
      → IsOf s k g
      → AreOf s ks gs
      → AreOf s (put_part (λ p. p.0) k ks) (put_part (λ p. p.0) g gs)
  unfolding AreOf put_part
  put_part-AreOf s k g [] [] one of = (one, tt)
  put_part-AreOf s k g [] (g' ∷ gs) one of = absurd of
  put_part-AreOf s k g (k' ∷ ks) [] one of = absurd of
  put_part-AreOf s k g (k' ∷ ks) (g' ∷ gs) one of =
      let e : leb k.0 k'.0 ≡ leb g.0 g'.0 = ap₂ leb one.number of.0.number in
      elim (Bool-cases (leb g.0 g'.0)) [
        | inl first ↦ rw (e, first) (one, (of.0, of.1))
        | inr later ↦ rw (e, later) (of.0, put_part-AreOf s k g ks gs one of.1)
      ]

  sort_parts-AreOf :
      (s : s3.State) (ks : List (ℕ × s3.Tag)) (gs : List (ℕ × UploadingPart))
      → AreOf s ks gs
      → AreOf s (sort_parts (λ p. p.0) ks) (sort_parts (λ p. p.0) gs)
  unfolding AreOf sort_parts
  sort_parts-AreOf s [] [] of = tt
  sort_parts-AreOf s [] (g ∷ gs) of = absurd of
  sort_parts-AreOf s (k ∷ ks) [] of = absurd of
  sort_parts-AreOf s (k ∷ ks) (g ∷ gs) of =
      put_part-AreOf s k g (sort_parts (λ p. p.0) ks) (sort_parts (λ p. p.0) gs) of.0
        (sort_parts-AreOf s ks gs of.1)

  -- What the uploader keeps of an upload, for the service to put together.
  AreOf-triples :
      (s : s3.State) (ks : List (ℕ × s3.Tag)) (gs : List (ℕ × UploadingPart))
      → AreOf s ks gs
      → (ts : List (ℕ × s3.Tag × Bytes)) × (map (λ p. (p.0, p.1)) ts ≡ ks)
        × (map (λ p. p.2) ts ≡ map (λ g. g.1.payload) gs)
        × All (λ p. service.body s id p.0 p.1 ≡ some p.2) ts
  unfolding AreOf
  AreOf-triples s [] [] of = ([], refl, refl, tt)
  AreOf-triples s [] (g ∷ gs) of = absurd of
  AreOf-triples s (k ∷ ks) [] of = absurd of
  AreOf-triples s (k ∷ ks) (g ∷ gs) of =
      let (ts, same, bodies, there) = AreOf-triples s ks gs of.1 in
      (
        (k.0, k.1, g.1.payload) ∷ ts,
        ap (λ l. k ∷ l) same,
        ap (λ l. g.1.payload ∷ l) bodies,
        (of.0.there, there),
      )

  middle :
      {A : Type 0} (P : A → Type 0) (xs : List A) (y : A) (ys : List A)
      → All P (xs ++ (y ∷ ys))
      → P y
  middle P [] y ys all = all.0
  middle P (x ∷ xs) y ys all = middle P xs y ys all.1

  AreDistinct-middle :
      (gs : List (ℕ × UploadingPart)) (p : ℕ × UploadingPart) (ps : List (ℕ × UploadingPart))
      → AreDistinct (λ g. g.0) (gs ++ (p ∷ ps))
      → All (λ g. eqb g.0 p.0 ≡ false) gs
  AreDistinct-middle [] p ps d = tt
  AreDistinct-middle (g ∷ gs) p ps d =
      (middle (λ y. eqb g.0 y.0 ≡ false) gs p ps d.0, AreDistinct-middle gs p ps d.1)

  -- The upload of one part, as the uploader keeps it.
  abbrev kept : ℕ × UploadingPart → Uploads s3 → Uploads s3
  kept p u = record {
    parts = u.parts ++ ((p.0, (s3.upload_part id p.0 p.1.payload u.client).0) ∷ []);
    client = (s3.upload_part id p.0 p.1.payload u.client).1;
  }

  upload_one-kept :
      (n : ℕ) (payload : Bytes) (given : Option String) (u : Uploads s3)
      → is_empty id ≡ false
      → given ≡ some id
      → upload_one s3 (n, record { payload = payload; upload_id = given }) u
        ≡ kept (n, record { payload = payload; upload_id = given }) u
  unfolding upload_one
  upload_one-kept n payload given u named h = rw (h, upload_one, named) refl

  upload_all-AreOf :
      (ps gs : List (ℕ × UploadingPart)) (u : Uploads s3)
      → is_empty id ≡ false
      → All (λ p. p.1.upload_id ≡ some id) ps
      → AreDistinct (λ g. g.0) (gs ++ ps)
      → AreOf u.client u.parts gs
      → AreOf (upload_all s3 ps u).client (upload_all s3 ps u).parts (gs ++ ps)
  unfolding upload_all
  upload_all-AreOf [] gs u named ids d of = rw (append-nil gs) of
  upload_all-AreOf (p ∷ ps) gs u named ids d of =
      let apart = AreDistinct-middle gs p ps d in
      let later : AreOf (upload_all s3 ps (kept p u)).client (upload_all s3 ps (kept p u)).parts
          ((gs ++ (p ∷ [])) ++ ps) =
        upload_all-AreOf ps (gs ++ (p ∷ [])) (kept p u) named ids.1
          (subst (AreDistinct (λ g. g.0)) (sym (append_assoc gs (p ∷ []) ps)) d)
          (AreOf-append (kept p u).client u.parts gs
            (p.0, (s3.upload_part id p.0 p.1.payload u.client).0) p
            (AreOf-upload u.client u.parts gs p.0 p.1.payload apart of)
            (record { number = refl; there = service.upload_body id p.0 p.1.payload u.client })) in
      subst (λ v. AreOf (upload_all s3 ps v).client (upload_all s3 ps v).parts (gs ++ (p ∷ ps)))
        (sym (upload_one-kept p.0 p.1.payload p.1.upload_id u named ids.0))
        (subst (AreOf (upload_all s3 ps (kept p u)).client (upload_all s3 ps (kept p u)).parts)
          (append_assoc gs (p ∷ []) ps) later)

  -- With all parts uploaded in any order, the completed object has them in theirs.
  pub complete-stored :
      (parts : List UploadingPart) (order : List (ℕ × UploadingPart)) (s : s3.State)
      → is_empty id ≡ false
      → All (λ p. p.upload_id ≡ some id) parts
      → Permᴰ (number_from 0 parts) order
      → service.stored
          (complete s3 (some id) (upload_all s3 order (record { parts = []; client = s })))
        ≡ some (join (map (λ p. p.payload) parts))
  unfolding complete AreOf number_from
  complete-stored parts order s named ids perm =
      let numbered = number_from 0 parts in
      let u = upload_all s3 order (record { parts = []; client = s }) in
      let distinct = number_from-AreDistinct 0 parts in
      let all_of =
        upload_all-AreOf order [] (record { parts = []; client = s }) named
          (Perm-All (λ p. p.0) (λ p. p.1.upload_id ≡ some id) perm (numbered-All 0 parts ids))
          (Perm-AreDistinct (λ p. p.0) perm distinct) tt in
      let sorted : AreOf u.client (sort_parts (λ p. p.0) u.parts) numbered =
        subst (AreOf u.client (sort_parts (λ p. p.0) u.parts))
          (sym (sort_parts-Perm (λ p. p.0) perm distinct) ∙ sort_parts-number_from 0 parts)
          (sort_parts-AreOf u.client u.parts order all_of) in
      let (ts, same, bodies, there) =
        AreOf-triples u.client (sort_parts (λ p. p.0) u.parts) numbered sorted in
      ap (λ l. service.stored (s3.complete_multipart_upload id l u.client)) (sym same)
      ∙ service.complete_stored id ts u.client there
      ∙ ap (λ l. some (join l)) (bodies ∙ numbered-payloads 0 parts)
    where
      numbered-All :
          (k : ℕ) (parts : List UploadingPart)
          → All (λ p. p.upload_id ≡ some id) parts
          → All (λ p. p.1.upload_id ≡ some id) (number_from k parts)
      numbered-All k [] h = tt
      numbered-All k (part ∷ parts) h = (h.0, numbered-All (k + 1) parts h.1)

      numbered-payloads :
          (k : ℕ) (parts : List UploadingPart)
          → map (λ p. p.1.payload) (number_from k parts) ≡ map (λ p. p.payload) parts
      numbered-payloads k [] = refl
      numbered-payloads k (part ∷ parts) =
          ap (λ l. part.payload ∷ l) (numbered-payloads (k + 1) parts)
