-- ===== src/Storage/Snapshot/Directory.antt =====
-- The directory of the snapshots: `Create`, `List`, `Load` and `Prune` of
-- src/internal/storage/snapshot/manager.go. The directory is the list of its files in the order of their
-- names, in which os.ReadDir gives them. The operations on files succeed.
use tokmesh_go.Base.{
  ℕ, ◌+◌, ◌*◌, Bool, not, ◌&&◌, ◌||◌, Option, none, some, List, [], ◌∷◌, ◌++◌, ltb, leb, ◌==◌,
  length, if◌then◌else◌,
}
use tokmesh_go.Domain.Str.{Str, bytes}
use tokmesh_go.Domain.Strings.{has_prefix, has_suffix, str_eq, str_leb, pad_decimal}
use tokmesh_go.Domain.Session.{Session}
use tokmesh_go.Storage.Codec.{Bytes}
use tokmesh_go.Storage.Snapshot.{
  Library, Config, Info, Loaded, failed, loaded, checksum_mismatch, invalid_magic, unreadable,
  file_prefix, file_extension, encode_file, load_file,
}

pub record File : Type 0 where
  pub name : Str
  pub contents : Bytes
  pub mod_time : ℕ

-- The files that `List` takes for snapshots.
unfoldable pub is_snapshot : Str → Bool
is_snapshot name = has_prefix name file_prefix && has_suffix name file_extension

unfoldable pub list : List File → List File
list [] = []
list (f ∷ dir) = let rest = list dir in if is_snapshot f.name then f ∷ rest else rest

pub data LoadResult : Type 0 where
  no_snapshots load_failed : LoadResult
  found : List Session → Info → LoadResult

-- How the loop of `Load` goes on after a file; damaged files are passed over.
abbrev pub tried : Loaded → LoadResult
tried (loaded sessions info) = found sessions info
tried (failed checksum_mismatch) = no_snapshots
tried (failed invalid_magic) = no_snapshots
tried (failed unreadable) = load_failed

module _ (lib : Library) (cfg : Config) where
  -- The loop of `Load`, which goes from the newest file, the last, to the oldest: a file is tried when all newer
  -- ones are damaged.
  unfoldable pub load_newest : List File → LoadResult
  load_newest [] = no_snapshots
  load_newest (f ∷ newer) = elim (load_newest newer) [
    | no_snapshots ↦ tried (load_file lib cfg f.contents)
    | load_failed ↦ load_failed
    | found sessions info ↦ found sessions info
  ]

  unfoldable pub load : List File → LoadResult
  load dir = load_newest (list dir)

-- A file is put in the place of its name, and replaces one of that name.
unfoldable pub put_file : File → List File → List File
put_file f [] = f ∷ []
put_file f (g ∷ dir) =
    if str_eq g.name f.name
    then f ∷ dir
    else if str_leb g.name f.name
    then g ∷ put_file f dir
    else f ∷ g ∷ dir

-- The loop of `generateID`.
unfoldable pub count_ids : Str → List File → ℕ
count_ids ts [] = 0
count_ids ts (f ∷ dir) =
    (if has_prefix f.name (file_prefix ++ ts ++ bytes "-") && has_suffix f.name file_extension
      then 1
      else 0)
    + count_ids ts dir

-- `generateID`, of the time's text.
unfoldable pub generate_id : Str → List File → Str
generate_id ts dir = file_prefix ++ ts ++ bytes "-" ++ pad_decimal (count_ids ts dir + 1)

-- `Create`: the file is written under another name and renamed.
unfoldable pub create :
    Library → Config → (ts : Str) → (now offset : ℕ) → List Session → List File → Option (List File)
create lib cfg ts now offset sessions dir = elim (encode_file lib cfg now sessions offset) [
  | none ↦ none
  | some contents ↦ some (
      put_file
        (record {
          name = generate_id ts dir ++ file_extension;
          contents = contents;
          mod_time = now;
        })
        dir)
]

-- A day in the milliseconds of the clock.
abbrev pub day : ℕ
day = 86400000

module _ (cfg : Config) (now : ℕ) where
  -- Whether `Prune` keeps a snapshot that has `later` ones behind it.
  unfoldable pub keeps : (later : ℕ) → File → Bool
  keeps later f =
      ltb later cfg.retention_count
      || ltb 0 cfg.retention_days && ltb now (f.mod_time + cfg.retention_days * day)
      || later == 0

  -- The loop of the removals.
  unfoldable pub remove_old : List File → List File
  remove_old [] = []
  remove_old (f ∷ dir) =
      let rest = remove_old dir in
      if is_snapshot f.name && not (keeps (length (list dir)) f) then rest else f ∷ rest

  unfoldable pub prune : List File → List File
  prune dir = if leb (length (list dir)) 1 then dir else remove_old dir
