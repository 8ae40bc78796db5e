-- ===== src/Memory/UserIndex.antt =====
-- `UserIndex` (src/internal/storage/memory/index.go). A `*SessionSet` is shared between the map and
-- the caller that changes it, so a change of the set is written back to the map.
pub mod Laws
use tokmesh_go.Base.{ℕ, Bool, true, false, Option, none, some, List, [], ◌==◌, if◌then◌else◌}
use tokmesh_go.Domain.Str.{Str, str_dec}
use tokmesh_go.Cmap
use tokmesh_go.Cmap.{Map}
use tokmesh_go.Memory.SessionSet
use tokmesh_go.Memory.SessionSet.{Set}

pub record UserIndex : Type 0 where
  pub index : Map Str Set

-- `NewUserIndex`
unfoldable pub new_user_index : (Str → ℕ) → UserIndex
new_user_index seed = record { index = Cmap.new seed }

unfoldable pub add : UserIndex → Str → Str → UserIndex
add i user_id session_id =
    let r = Cmap.get_or_set str_dec i.index user_id SessionSet.empty in
    record { index = Cmap.set str_dec r.0 user_id (SessionSet.add r.1 session_id) }

-- An empty set is taken out of the map.
unfoldable pub remove : UserIndex → Str → Str → UserIndex
remove i user_id session_id = elim (Cmap.get str_dec i.index user_id) [
  | none ↦ i
  | some held ↦
      let rest = SessionSet.remove held session_id in
      let written = Cmap.set str_dec i.index user_id rest in
      record {
        index = if SessionSet.len rest == 0 then Cmap.delete str_dec written user_id else written;
      }
]

unfoldable pub get : UserIndex → Str → List Str
get i user_id = elim (Cmap.get str_dec i.index user_id) [
  | none ↦ []
  | some held ↦ SessionSet.items held
]

unfoldable pub count : UserIndex → Str → ℕ
count i user_id = elim (Cmap.get str_dec i.index user_id) [
  | none ↦ 0
  | some held ↦ SessionSet.len held
]

unfoldable pub clear : UserIndex → Str → UserIndex
clear i user_id = record { index = Cmap.delete str_dec i.index user_id }

-- The set of a user, empty where the map has none: the abstract view of the index.
unfoldable pub set_at : UserIndex → Str → Set
set_at i user_id = elim (Cmap.get str_dec i.index user_id) [
  | none ↦ SessionSet.empty
  | some held ↦ held
]

-- Whether the index has a session under a user.
abbrev pub member : UserIndex → Str → Str → Bool
member i user_id session_id = SessionSet.contains (set_at i user_id) session_id

abbrev pub IsValid : UserIndex → Type 0
IsValid i = Cmap.IsValid i.index
