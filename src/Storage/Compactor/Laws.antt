-- ===== src/Storage/Compactor/Laws.antt =====
-- The compaction keeps the segments that a recovery from the snapshot reads, and as many as configured.
use tokmesh_go.Base.{
  ℕ, zero, suc, ◌+◌, ◌-◌, ◌/◌, ◌%◌, ◌^◌, ◌≡◌, ◌≤◌, ◌<◌, refl, ap, ◌∙◌, false, none, List, [], ◌∷◌,
  ltb, ◌==◌, length, take, arith, inl, inr, Bool-cases, length-take-le,
}
use tokmesh_go.Storage.Writer.{Segment}
use tokmesh_go.Storage.Reader.{from_segment, seek}
use tokmesh_go.Storage.Compactor.{older, to_delete, remove_file, remove_files, compact}

-- The IDs are at least this one.
unfoldable pub AllFrom : ℕ → List Segment → Type 0
AllFrom n [] = Unit
AllFrom n (seg ∷ files) = (n ≤ seg.0) × AllFrom n files

unfoldable pub IsSorted : List Segment → Type 0
unfolding AllFrom
IsSorted [] = Unit
IsSorted (seg ∷ files) = AllFrom seg.0 files × IsSorted files

AllBelow : ℕ → List ℕ → Type 0
AllBelow n [] = Unit
AllBelow n (id ∷ ids) = (id < n) × AllBelow n ids

AllFrom-remove_file :
    (n id : ℕ) (files : List Segment) → AllFrom n files → AllFrom n (remove_file id files)
unfolding AllFrom remove_file
AllFrom-remove_file n id [] all = tt
AllFrom-remove_file n id (seg ∷ files) all = elim (Bool-cases (seg.0 == id)) [
  | inl e ↦ rw (e, remove_file) all.1
  | inr e ↦ rw (e, remove_file) (all.0, AllFrom-remove_file n id files all.1)
]

remove_file-IsSorted :
    (id : ℕ) (files : List Segment) → IsSorted files → IsSorted (remove_file id files)
unfolding IsSorted remove_file
remove_file-IsSorted id [] s = tt
remove_file-IsSorted id (seg ∷ files) s = elim (Bool-cases (seg.0 == id)) [
  | inl e ↦ rw (e, remove_file) s.1
  | inr e ↦
      rw (e, remove_file)
        (AllFrom-remove_file seg.0 id files s.0, remove_file-IsSorted id files s.1)
]

remove_file-absent :
    (n id : ℕ) (files : List Segment) → id < n → AllFrom n files → remove_file id files ≡ files
unfolding AllFrom remove_file
remove_file-absent n id [] less all = refl
remove_file-absent n id (seg ∷ files) less all =
    ground (arith, less, all.0, remove_file-absent n id files less all.1)

AllFrom-le : (m n : ℕ) (files : List Segment) → m ≤ n → AllFrom n files → AllFrom m files
unfolding AllFrom
AllFrom-le m n [] le all = tt
AllFrom-le m n (seg ∷ files) le all = (omega (arith, le, all.0), AllFrom-le m n files le all.1)

from_segment-remove_file :
    (n id : ℕ) (files : List Segment)
    → id < n
    → IsSorted files
    → from_segment n (remove_file id files) ≡ from_segment n files
unfolding from_segment remove_file IsSorted
from_segment-remove_file n id [] less s = refl
from_segment-remove_file n id (seg ∷ files) less s = elim (Bool-cases (ltb seg.0 n)) [
  | inl low ↦ ground (arith, low, from_segment-remove_file n id files less s.1)
  | inr high ↦
      let le : n ≤ seg.0 = ground (arith, high) in
      ground (arith, less, le, remove_file-absent n id files less (AllFrom-le n seg.0 files le s.0))
]

from_segment-remove_files :
    (n : ℕ) (ids : List ℕ) (files : List Segment)
    → AllBelow n ids
    → IsSorted files
    → from_segment n (remove_files ids files) ≡ from_segment n files
unfolding remove_files AllBelow
from_segment-remove_files n [] files all s = refl
from_segment-remove_files n (id ∷ ids) files all s =
    from_segment-remove_files n ids (remove_file id files) all.1 (remove_file-IsSorted id files s)
    ∙ from_segment-remove_file n id files all.0 s

AllBelow-older : (n : ℕ) (files : List Segment) → AllBelow n (older n files)
unfolding AllBelow older
AllBelow-older n [] = tt
AllBelow-older n (seg ∷ files) = elim (Bool-cases (ltb seg.0 n)) [
  | inl e ↦ rw (e, older) (ground (arith, e), AllBelow-older n files)
  | inr e ↦ rw (e, older) (AllBelow-older n files)
]

AllBelow-take : (n k : ℕ) (ids : List ℕ) → AllBelow n ids → AllBelow n (take k ids)
unfolding AllBelow
AllBelow-take n zero ids all = tt
AllBelow-take n (suc k) [] all = tt
AllBelow-take n (suc k) (id ∷ ids) all = (all.0, AllBelow-take n k ids all.1)

AllBelow-to_delete :
    (n retain_count files : ℕ) (ids : List ℕ)
    → AllBelow n ids
    → AllBelow n (to_delete retain_count files ids)
unfolding to_delete
AllBelow-to_delete n retain_count files ids all =
    elim (Bool-cases (ltb (files - length ids) retain_count)) [
      | inl e ↦ rw (e, to_delete) (AllBelow-take n _ ids all)
      | inr e ↦ rw (e, to_delete) all
    ]

-- For segments in the order of their IDs, `Compact` with the offset of a snapshot, whatever the
-- number of files to retain, leaves the reader that is positioned at that offset with the very
-- segments that it had before.
pub seek-compact :
    (retain_count offset : ℕ) (files : List Segment)
    → IsSorted files
    → seek (compact retain_count offset files) offset ≡ seek files offset
unfolding seek compact
seek-compact retain_count offset files s =
    ap (λ l. record { segments = l; start_at = offset % 2 ^ 32; reader = none; header_ok = false })
      (from_segment-remove_files (offset / 2 ^ 32)
        (to_delete retain_count (length files) (older (offset / 2 ^ 32) files)) files
        (AllBelow-to_delete (offset / 2 ^ 32) retain_count (length files)
          (older (offset / 2 ^ 32) files) (AllBelow-older (offset / 2 ^ 32) files))
        s)

length-older-le : (n : ℕ) (files : List Segment) → length (older n files) ≤ length files
unfolding older
length-older-le n [] = omega arith
length-older-le n (seg ∷ files) = ground (arith, length-older-le n files)

length-remove_file :
    (id : ℕ) (files : List Segment) → length files ≤ length (remove_file id files) + 1
unfolding remove_file
length-remove_file id [] = omega arith
length-remove_file id (seg ∷ files) = ground (arith, length-remove_file id files)

length-remove_files :
    (ids : List ℕ) (files : List Segment)
    → length files ≤ length (remove_files ids files) + length ids
unfolding remove_files
length-remove_files [] files = omega arith
length-remove_files (id ∷ ids) files =
    omega (arith, length-remove_files ids (remove_file id files), length-remove_file id files)

length-to_delete-le :
    (retain_count files : ℕ) (ids : List ℕ)
    → retain_count ≤ files
    → length ids ≤ files
    → retain_count + length (to_delete retain_count files ids) ≤ files
unfolding to_delete
length-to_delete-le retain_count files ids enough few = ground (
  arith,
  enough,
  few,
  length-take-le (length ids - length ids) ids,
  length-take-le (length ids - (retain_count - (files - length ids))) ids,
)

-- The compaction leaves at least the configured number of files, if there are as many.
pub length-compact-le :
    (retain_count offset : ℕ) (files : List Segment)
    → retain_count ≤ length files
    → retain_count ≤ length (compact retain_count offset files)
unfolding compact
length-compact-le retain_count offset files enough =
    let old = older (offset / 2 ^ 32) files in
    omega (
      arith,
      length-to_delete-le retain_count (length files) old enough
          (length-older-le (offset / 2 ^ 32) files),
      length-remove_files (to_delete retain_count (length files) old) files,
    )
