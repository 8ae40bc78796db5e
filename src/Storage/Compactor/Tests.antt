-- ===== src/Storage/Compactor/Tests.antt =====
-- A compaction of five segments, and instances of the theorems.
use tokmesh_go.Base.{◌*◌, ◌+◌, ◌^◌, ◌≡◌, List, [], ◌∷◌, arith}
use tokmesh_go.Storage.Writer.{Segment}
use tokmesh_go.Storage.Reader.{seek}
use tokmesh_go.Storage.Compactor.{compact}
use tokmesh_go.Storage.Compactor.Laws.{IsSorted, AllFrom, seek-compact}

abbrev disk : List Segment
disk = (1, []) ∷ (2, []) ∷ (3, []) ∷ (4, []) ∷ (7, []) ∷ []

seek-compact_example :
    seek (compact 3 (4 * 2 ^ 32 + 100) disk) (4 * 2 ^ 32 + 100) ≡ seek disk (4 * 2 ^ 32 + 100)
unfolding IsSorted AllFrom
seek-compact_example = seek-compact 3 (4 * 2 ^ 32 + 100) disk (
  (omega arith, (omega arith, (omega arith, (omega arith, tt)))),
  (
    (omega arith, (omega arith, (omega arith, tt))),
    ((omega arith, (omega arith, tt)), ((omega arith, tt), (tt, tt))),
  ),
)
