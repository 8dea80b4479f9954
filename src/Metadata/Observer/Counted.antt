-- ===== src/Metadata/Observer/Counted.antt =====
-- The metadata that `UploadPartObserver` uploads, and their counters.
use ch_backup.Prelude.{
  ℕ, ◌+◌, inl, inr, Bool-cases, leb, List, [], ◌∷◌, All, All-append, Result-cases,
}
use ch_backup.Metadata.{PartMetadata}
use ch_backup.Metadata.Part.RoundTrip.{IsPlain}
use ch_backup.Metadata.Backup.{add_part}
use ch_backup.Metadata.Backup.Counting.{IsCounted}
use ch_backup.Metadata.Backup.Added.{add_part-IsCounted}
use ch_backup.Metadata.Observer.{UploadPartObserver, observe, observe_all}

-- The counters of the metadata in hand and of all uploaded ones are true.
pub record AreCounted (o : UploadPartObserver) : Type 0 where
  pub in_hand : IsCounted o.backup_meta
  pub uploaded : All IsCounted o.uploads

observe-AreCounted :
    (now : ℕ) (part : PartMetadata) (o : UploadPartObserver)
    → IsPlain part.link
    → AreCounted o
    → AreCounted (observe now part o).1
unfolding observe
observe-AreCounted now part o plain c = elim (Result-cases (add_part part o.backup_meta)) [
  | inr (e, raised) ↦ rw (raised, observe) (record { in_hand = c.in_hand; uploaded = c.uploaded })
  | inl (m, added) ↦
      (let counted = add_part-IsCounted part o.backup_meta m c.in_hand plain added in
        elim (Bool-cases (leb (o.last_time + o.interval) now)) [
          | inl due ↦
              rw (added, due, observe)
                (record {
                  in_hand = counted;
                  uploaded = All-append IsCounted o.uploads (m ∷ []) c.uploaded (counted, tt);
                })
          | inr early ↦
              rw (added, early, observe) (record { in_hand = counted; uploaded = c.uploaded })
        ])
]

-- Over a whole backup that starts with true counters, every metadata that the observer uploads, and
-- those in hand at the end, have counters true to the parts they hold, also where a part is
-- refused, for parts with plain links.
pub observe_all-AreCounted :
    (parts : List (ℕ × PartMetadata)) (o : UploadPartObserver)
    → All (λ p. IsPlain p.1.link) parts
    → AreCounted o
    → AreCounted (observe_all parts o).1
unfolding observe_all
observe_all-AreCounted [] o plain c = c
observe_all-AreCounted ((now, part) ∷ rest) o plain c =
    let next = observe-AreCounted now part o plain.0 c in
    elim (Result-cases (observe now part o).0) [
      | inr (e, raised) ↦ rw (raised, observe_all) next
      | inl (done, added) ↦
          rw (added, observe_all) (observe_all-AreCounted rest (observe now part o).1 plain.1 next)
    ]
