-- ===== src/Multipart/Tests.antt =====
-- Concrete runs of an upload, on a service in memory.

use mathlib.Core.List.{Permᴰ}
use ch_backup.Prelude.{
  ℕ, ◌≡◌, refl, ap, ◌∙◌, inr, eqb, true, false, Option, none, some, List, [], ◌∷◌, ◌++◌, map, All,
  if◌then◌else◌, arith, ok,
}
use ch_backup.Chunking.Laws.{join}
use ch_backup.Chunking.Stream.{IsCut}
use ch_backup.Multipart.{
  Bytes, S3, UploadingPart, upload_sizes, start_one, start_all, number_from, upload_one, upload_all,
  first_id, complete, put_part, sort_parts,
}
use ch_backup.Multipart.Whole.{Service}
use ch_backup.Multipart.Order.{upload-stored, uploaded}

-- The object at the path, and the parts, the last one first.
record Memory : Type 0 where
  object : Option Bytes
  parts : List (ℕ × Bytes)

abbrev find_bytes : ℕ → List (ℕ × Bytes) → Option Bytes
find_bytes n [] = none
find_bytes n (p ∷ ps) = let rest = find_bytes n ps in if eqb n p.0 then some p.1 else rest

abbrev put_together : List (ℕ × Unit {0}) → List (ℕ × Bytes) → Bytes
put_together [] parts = []
put_together (n ∷ ns) parts =
    let rest = put_together ns parts in
    elim (find_bytes n.0 parts) [ none ↦ rest | some b ↦ b ++ rest ]

abbrev memory : S3
memory = record {
  State = Memory;
  Tag = Unit {0};
  put_object = λ bytes s. record s { object = some bytes };
  create_multipart_upload = λ s. ("upload", s);
  upload_part = λ id n bytes s. (tt, record s { parts = (n, bytes) ∷ s.parts });
  complete_multipart_upload =
      λ id ns s. record { object = some (put_together ns s.parts); parts = [] };
}

found-same : (n : ℕ) (b : Bytes) (ps : List (ℕ × Bytes)) → find_bytes n ((n, b) ∷ ps) ≡ some b
found-same n b ps = let same : eqb n n ≡ true = ground arith in rw (same) refl

found-other :
    (k n : ℕ) (b : Bytes) (ps : List (ℕ × Bytes)) (kept : Bytes)
    → eqb k n ≡ false
    → find_bytes k ps ≡ some kept
    → find_bytes k ((n, b) ∷ ps) ≡ some kept
found-other k n b ps kept e h = rw (e) h

put_together-found :
    (n : ℕ × Unit {0}) (ns : List (ℕ × Unit {0})) (b : Bytes) (ps : List (ℕ × Bytes))
    → find_bytes n.0 ps ≡ some b
    → put_together (n ∷ ns) ps ≡ b ++ put_together ns ps
put_together-found n ns b ps h = rw (put_together, h) refl

put_together-join :
    (ts : List (ℕ × Unit {0} × Bytes)) (ps : List (ℕ × Bytes))
    → All (λ p. find_bytes p.0 ps ≡ some p.2) ts
    → put_together (map (λ p. (p.0, p.1)) ts) ps ≡ join (map (λ p. p.2) ts)
unfolding join
put_together-join [] ps h = refl
put_together-join (t ∷ ts) ps h =
    put_together-found (t.0, t.1) (map (λ p. (p.0, p.1)) ts) t.2 ps h.0
    ∙ ap (λ l. t.2 ++ l) (put_together-join ts ps h.1)

memory_service : Service memory
memory_service = record {
  stored = λ s. s.object;
  body = λ s id n tag. find_bytes n s.parts;
  put_stored = λ bytes s. refl;
  create_named = λ s. refl;
  upload_body = λ id n bytes s. found-same n bytes s.parts;
  upload_keeps = λ id n bytes s k tag kept e h. found-other k n bytes s.parts kept e h;
  complete_stored = λ id parts s there. ap some (put_together-join parts s.parts there);
}

abbrev empty : Memory
empty = record { object = none; parts = [] }

abbrev stream : Bytes
stream = 1 ∷ 2 ∷ 3 ∷ 4 ∷ 5 ∷ []

abbrev chunks : List Bytes
chunks = (1 ∷ 2 ∷ []) ∷ (3 ∷ 4 ∷ []) ∷ (5 ∷ []) ∷ []

stream-IsCut : IsCut 2 stream chunks
unfolding join
stream-IsCut = record {
  full = (1 ∷ 2 ∷ []) ∷ (3 ∷ 4 ∷ []) ∷ [];
  last = (5 ∷ []) ∷ [];
  parts = refl;
  even = (refl, (refl, tt));
  short = inr (5 ∷ [], refl, omega arith, omega arith);
  whole = refl;
}

-- Three parts, of which the last is short.
upload-stored_example :
    (parts : List UploadingPart) × (t : Memory) × (start_all memory 2 chunks none empty
      ≡ ok (parts, t))
    × ((order : List (ℕ × UploadingPart))
        → Permᴰ (number_from 0 parts) order
        → uploaded memory memory_service 2 parts order t ≡ some stream)
upload-stored_example =
    upload-stored memory memory_service 2 stream chunks empty stream-IsCut (omega arith)

-- Two parts that are uploaded in the other order.
abbrev two : List (ℕ × UploadingPart)
two =
    (2, record { payload = 3 ∷ []; upload_id = some "upload" })
    ∷ (1, record { payload = 1 ∷ 2 ∷ []; upload_id = some "upload" })
    ∷ []

swapped :
    complete memory (some "upload") (upload_all memory two (record { parts = []; client = empty }))
    ≡ record { object = some (1 ∷ 2 ∷ 3 ∷ []); parts = [] }
unfolding complete upload_all upload_one sort_parts put_part
swapped = refl

-- A chunk that is not whole is put as an object.
small :
    start_all memory 2 ((1 ∷ []) ∷ []) none empty
    ≡ ok (record { payload = 1 ∷ []; upload_id = none } ∷ [], empty)
unfolding start_all start_one
small = refl

-- Of nothing, nothing is uploaded.
nothing :
    complete memory
      (first_id memory [])
      (upload_all memory [] (record { parts = []; client = empty }))
    ≡ empty
unfolding complete upload_all first_id
nothing = refl

sizes : upload_sizes 10000 100 8 1500000 ≡ (200, 16)
unfolding upload_sizes
sizes = refl
