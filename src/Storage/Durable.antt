-- ===== src/Storage/Durable.antt =====
-- From the requests to the engine, through the log's writer, its files and its reader, to the recovery.
mod Tests
use tokmesh_go.Base.{
  ℕ, ◌+◌, ◌<◌, ◌≡◌, refl, ap, sym, subst, ◌∙◌, Bool, false, Option, none, some, List, [], ◌∷◌, ◌++◌,
  map, length, arith,
}
use tokmesh_go.Memory.Store.{Store}
use tokmesh_go.Storage.Entry.{Entry}
use tokmesh_go.Storage.Codec.{Bytes, Library, Cipher}
use tokmesh_go.Storage.Codec.Truncation.{log_bytes, AllLoggable}
use tokmesh_go.Storage.Writer.{Config, Writer, magic_bytes, new_writer, close}
use tokmesh_go.Storage.Writer.Groups.{Frames, all_frames, sealed_segments}
use tokmesh_go.Storage.Writer.Log.{Holds}
use tokmesh_go.Storage.Writer.Appends.{append_all, AllEncoded, append_all-Holds, close-Holds}
use tokmesh_go.Storage.Reader.{new_reader, read_until_eof}
use tokmesh_go.Storage.Reader.Segments.{read_frames, read_until_eof-sealed_segments}
use tokmesh_go.Storage.Engine.{recover}
use tokmesh_go.Storage.Engine.Recorded.{recorded}
use tokmesh_go.Storage.Engine.Recovery.{Request, run, AllReplayable, as_read, recover-run}
use tokmesh_go.Storage.Engine.Crash.{blank, entries}

read_frames-entries : (frames : Frames) → read_frames frames ≡ map as_read (entries frames)
unfolding read_frames
read_frames-entries [] = refl
read_frames-entries ((e, b) ∷ frames) = ap (◌∷◌ (as_read e)) (read_frames-entries frames)

module _ (sha256 : Bytes → Bytes) (sum : (b : Bytes) → length (sha256 b) ≡ 32) (lib : Library)
    (cipher : Option Cipher) where
  AllLoggable-AllEncoded :
      (frames : Frames) → AllLoggable lib cipher frames → AllEncoded lib cipher frames
  unfolding AllLoggable AllEncoded
  AllLoggable-AllEncoded [] all = tt
  AllLoggable-AllEncoded ((e, b) ∷ frames) all = (all.1, AllLoggable-AllEncoded frames all.2)

  new_writer-Holds :
      (cfg : Config) (w : Writer) → new_writer sha256 cfg [] none ≡ some w → Holds sha256 false w []
  unfolding new_writer sealed_segments all_frames log_bytes
  new_writer-Holds cfg w h = record {
    finished = [];
    current = [];
    waiting = [];
    on_disk = ground (arith, h);
    in_file = ground (arith, h);
    in_buffer = ground (arith, h);
    is_open = ground (arith, h);
    in_order = refl;
  }

  module _ (cfg : Config) (w : Writer) (frames : Frames)
      (created : new_writer sha256 cfg [] none ≡ some w) (all : AllLoggable lib cipher frames) where
    -- What was appended to a new writer before its close is read back in order.
    pub read-close :
        (fuel : ℕ)
        → length frames < fuel
        → read_until_eof sha256 lib cipher fuel
            (new_reader (close sha256 (append_all sha256 lib cipher w frames)).0.disk)
          ≡ map as_read (entries frames)
    read-close fuel enough =
        let held =
          append_all-Holds sha256 lib cipher w [] frames (AllLoggable-AllEncoded frames all)
            (new_writer-Holds cfg w created) in
        let (groups, disk, order, fine) =
          close-Holds sha256 (append_all sha256 lib cipher w frames) frames held in
        ap (λ d. read_until_eof sha256 lib cipher fuel (new_reader d)) disk
        ∙ read_until_eof-sealed_segments sha256 lib cipher sum fuel groups
            (subst (AllLoggable lib cipher) order all) (omega (arith, enough, ap length order))
        ∙ ap read_frames (sym order)
        ∙ read_frames-entries frames

    -- For any configuration of a log writer on an empty directory, and a checksum of 32 bytes: if
    -- the entries of the requests of `recover-run`, which can be framed, are appended and the
    -- writer is closed, then the recovery from an empty snapshot and what the reader returns from
    -- the files, given more fuel than entries, gives the store that was lost, with its sessions as
    -- JSON keeps them.
    pub recover-close :
        (fuel now : ℕ) (s : Store) (rs : List Request)
        → length frames < fuel
        → recorded s ≡ s
        → AllReplayable now rs
        → entries frames ≡ (run (blank s) rs).wal
        → recover now s [] (
            read_until_eof sha256 lib cipher fuel
              (new_reader (close sha256 (append_all sha256 lib cipher w frames)).0.disk))
          ≡ recorded (run (blank s) rs).store
    recover-close fuel now s rs enough plain fit same =
        ap (recover now s []) (read-close fuel enough ∙ ap (map as_read) same)
        ∙ recover-run now s rs plain fit
