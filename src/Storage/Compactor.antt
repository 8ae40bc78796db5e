-- ===== src/Storage/Compactor.antt =====
-- `Compactor` (src/internal/storage/wal/compactor.go) on the segments of a directory, in the order of their names.
-- Removals succeed.
pub mod Laws
mod Tests
use tokmesh_go.Base.{
  ℕ, zero, suc, ◌+◌, ◌-◌, ◌/◌, ◌^◌, ◌≡◌, ◌≤◌, ◌<◌, refl, ap, sym, ◌∙◌, Bool, true, false, List, [],
  ◌∷◌, ltb, leb, ◌==◌, length, take, arith, if◌then◌else◌, inl, inr, Bool-cases, none, ◌%◌,
}
use tokmesh_go.Storage.Writer.{Segment}
use tokmesh_go.Storage.Reader.{from_segment, seek}

-- the IDs of the segments before that of the snapshot
unfoldable pub older : ℕ → List Segment → List ℕ
older snapshot_segment [] = []
older snapshot_segment (seg ∷ files) =
    let rest = older snapshot_segment files in
    if ltb seg.0 snapshot_segment then seg.0 ∷ rest else rest

-- the last of them are kept when too few files would be left
unfoldable pub to_delete : ℕ → ℕ → List ℕ → List ℕ
to_delete retain_count files old =
    let missing = retain_count - (files - length old) in
    let keep_count = if ltb (length old) missing then length old else missing in
    if ltb (files - length old) retain_count then take (length old - keep_count) old else old

-- `os.Remove`
unfoldable pub remove_file : ℕ → List Segment → List Segment
remove_file id [] = []
remove_file id (seg ∷ files) =
    let rest = remove_file id files in if seg.0 == id then files else seg ∷ rest

unfoldable pub remove_files : List ℕ → List Segment → List Segment
remove_files [] files = files
remove_files (id ∷ ids) files = remove_files ids (remove_file id files)

-- `Compact`
unfoldable pub compact : ℕ → ℕ → List Segment → List Segment
compact retain_count offset files =
    remove_files (to_delete retain_count (length files) (older (offset / 2 ^ 32) files)) files
