-- ===== src/Storage/Snapshot/Tests.antt =====
-- A small library of codecs, a directory of two snapshots, and each theorem on it.
use tokmesh_go.Base.{
  ℕ, ◌^◌, ◌≡◌, ◌<◌, refl, false, Option, none, some, List, [], ◌∷◌, ◌++◌, length, replicate,
  ℕ_discrete, arith, ap, sym, ◌∙◌,
}
use tokmesh_go.Domain.Str.{str_dec, bytes}
use tokmesh_go.Domain.Strings.{str_eq, str_leb, has_prefix, has_suffix, decimal, pad_decimal}
use tokmesh_go.Domain.Session.{Session}
use tokmesh_go.Memory.Samples.{alice, bob}
use tokmesh_go.Storage.Codec.{Bytes}
use tokmesh_go.Storage.Snapshot.{
  Library, Config, Header, Info, new_manager, read_full, read_uint32, read_block, encode_file,
  decode_sessions, load_data, load_header, load_file,
}
use tokmesh_go.Storage.Snapshot.Create.{load-create}
use tokmesh_go.Storage.Snapshot.Directory.{
  File, is_snapshot, list, found, load_newest, load, put_file, count_ids, generate_id, create,
  keeps, remove_old, prune,
}
use tokmesh_go.Storage.Snapshot.Retention.{load-prune}

abbrev decode_header : Bytes → Option Header
decode_header (o ∷ n ∷ t ∷ _) = some (record {
  version = 1;
  created_at = t;
  node_id = [];
  session_count = n;
  wal_last_offset = o;
  encrypted = false;
})
decode_header _ = none

abbrev sessions_of : Bytes → Option (List Session)
sessions_of [] = some []
sessions_of (x ∷ []) = some (alice ∷ [])
sessions_of (x ∷ y ∷ _) = some (alice ∷ bob ∷ [])

abbrev toy : Library
toy = record {
  marshal_header = λ h. h.wal_last_offset ∷ h.session_count ∷ h.created_at ∷ [];
  unmarshal_header = decode_header;
  marshal_sessions = λ l. replicate (length l) 7;
  unmarshal_sessions = sessions_of;
  sha256 = λ b. replicate 32 (length b);
  IsHeaderText =
      λ h. decode_header (h.wal_last_offset ∷ h.session_count ∷ h.created_at ∷ []) ≡ some h;
  IsText = λ l. sessions_of (replicate (length l) 7) ≡ some l;
  header_lem = λ h e. e;
  header_pos = λ h. omega arith;
  sessions_lem = λ l e. e;
  sha256_size = λ b. refl;
}

abbrev config : Config
config = record { retention_count = 1; retention_days = 1; cipher = none; node_id = [] }

program : Unit {0}
unfolding read_full read_uint32 read_block encode_file decode_sessions load_data load_header
    load_file is_snapshot list load_newest load put_file count_ids generate_id create keeps
    remove_old prune new_manager str_eq str_leb has_prefix has_suffix decimal pad_decimal str_dec
    ℕ_discrete
program = tt

-- the bytes of a snapshot of alice at the offset 90
abbrev file : Bytes
file = bytes "TOKMSNAP" ++ (0 ∷ 0 ∷ 0 ∷ 3 ∷ 90 ∷ 1 ∷ 10 ∷ 0 ∷ 0 ∷ 0 ∷ 1 ∷ 7 ∷ replicate 32 20)

encoded : encode_file toy config 10 (alice ∷ []) 90 ≡ some file
unfolding program
encoded = refl

abbrev first_file : File
first_file = record { name = bytes "snapshot-A-0001.snap"; contents = file; mod_time = 10 }

abbrev second_file : File
second_file = record { name = bytes "snapshot-A-0002.snap"; contents = file; mod_time = 20 }

abbrev dir : List File
dir = record { name = bytes "notes"; contents = []; mod_time = 0 } ∷ first_file ∷ []

abbrev dir_after : List File
dir_after = dir ++ (record second_file { mod_time = 10 }) ∷ []

created : create toy config (bytes "A") 10 90 (alice ∷ []) dir ≡ some dir_after
unfolding program
created = refl

small_file : (b : List ℕ) → encode_file toy config 10 (alice ∷ []) 90 ≡ some b → length b < 2 ^ 32
small_file b e =
    let size : some (length file) ≡ some (length b) =
      ap (λ (o : Option (List ℕ)). elim o [ none ↦ none | some c ↦ some (length c) ])
        (sym encoded ∙ e) in
    ground (arith, size)

load-create_example :
    (info : Info) × (load toy config dir_after ≡ found (alice ∷ []) info)
    × (info.wal_last_offset ≡ 90)
unfolding program
load-create_example =
    load-create toy config (bytes "A") 10 90 (alice ∷ []) dir dir_after created
      (refl, refl, (refl, refl, tt)) refl refl small_file

-- the newest file is damaged, and the one before it is loaded
damaged :
    load toy config (dir ++ record second_file { contents = 1 ∷ [] } ∷ []) ≡ load toy config dir
unfolding program
damaged = refl

abbrev old_dir : List File
old_dir = dir ++ second_file ∷ []

abbrev later : ℕ
later = 100000000

load-prune_example : load toy config (prune config later old_dir) ≡ load toy config old_dir
unfolding program
load-prune_example = load-prune config later toy old_dir (λ e. absurd (ground (arith, e)))

pruned :
    prune config later old_dir
    ≡ record { name = bytes "notes"; contents = []; mod_time = 0 } ∷ second_file ∷ []
unfolding program
pruned = refl
