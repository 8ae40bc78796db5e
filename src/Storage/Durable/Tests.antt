-- ===== src/Storage/Durable/Tests.antt =====
-- A log that goes through its writer, its files and its reader, and instances of the theorems.
use tokmesh_go.Base.{
  ◌+◌, ◌^◌, ◌≡◌, ◌≢◌, refl, false, none, some, [], ◌∷◌, length, take, drop, replicate, arith,
  length-replicate, get_or, ap, ℕ_discrete, dec_lt,
}
use tokmesh_go.Domain.Str.{str_dec}
use tokmesh_go.Memory.Samples.{s0, bob}
use tokmesh_go.Storage.Codec.{Bytes, wire_payload, session_payload, encode_entry_frame, frame_of}
use tokmesh_go.Storage.Codec.Truncation.{log_bytes}
use tokmesh_go.Storage.Writer.{
  Config, Writer, magic_bytes, new_writer, close, apply_defaults, verify_checksum_trailer,
}
use tokmesh_go.Storage.Writer.Appends.{append_all}
use tokmesh_go.Storage.Writer.Groups.{content_of}
use tokmesh_go.Storage.Reader.{new_reader, read_until_eof, seek, from_segment}
use tokmesh_go.Storage.Reader.Seek.{NoMagic, short, chunk, whole_file, recover-seek}
use tokmesh_go.Storage.Engine.{recover, create, update, delete}
use tokmesh_go.Storage.Engine.Recorded.{recorded}
use tokmesh_go.Storage.Engine.Recovery.{serve, run}
use tokmesh_go.Storage.Engine.Crash.{blank}
use tokmesh_go.Storage.Engine.Samples.{script, frames, frames-AllLoggable, recorded-s0}
use tokmesh_go.Storage.Samples.{toy}
use tokmesh_go.Storage.Durable

abbrev sha256 : Bytes → Bytes
sha256 b = replicate 32 (length b)

sha256-length : (b : Bytes) → length (sha256 b) ≡ 32
sha256-length b = length-replicate 32 (length b)

-- batches of two entries, and a segment for each batch
abbrev cfg : Config
cfg = record { batch_count = 2; batch_bytes = 0; max_file_size = 30; max_entry_count = 0 }

abbrev fresh : Writer
fresh = record {
  cfg = apply_defaults cfg;
  segment_id = 1;
  disk = [];
  file = some magic_bytes;
  segment_entries = 0;
  buffer = [];
  buffer_bytes = 0;
  closed = false;
}

recover-close_example :
    recover 2000 s0 [] (
      read_until_eof sha256 toy none 5
        (new_reader (close sha256 (append_all sha256 toy none fresh frames)).0.disk))
    ≡ recorded (run (blank s0) script).store
unfolding new_writer run serve create update delete
recover-close_example =
    Durable.recover-close sha256 sha256-length toy none cfg fresh frames refl frames-AllLoggable 5
      2000 s0 script (omega arith) recorded-s0 (omega arith, (omega arith, (refl, (tt, (tt, tt)))))
      refl

-- one open segment with all frames, and a snapshot that was taken after the first two
abbrev file : Bytes
file = content_of frames

-- the first byte tells the two apart
other_start : (a b : Bytes) → get_or a 0 0 ≢ get_or b 0 0 → a ≢ b
other_start a b h e = h (ap (λ l. get_or l 0 0) e)

rest-NoMagic : NoMagic (drop 28 file)
unfolding log_bytes encode_entry_frame wire_payload session_payload frame_of
rest-NoMagic = chunk (other_start (take 8 (drop 28 file)) magic_bytes (λ e. omega (arith, e))) (
    chunk (other_start (take 8 (drop 36 file)) magic_bytes (λ e. omega (arith, e)))
      (short (omega arith)))

recover-seek_example :
    recover 2000 s0
      (bob ∷ [])
      (read_until_eof sha256 toy none 9 (seek ((1, file) ∷ []) (2 ^ 32 + 28)))
    ≡ recover 2000 s0 (bob ∷ []) []
unfolding from_segment verify_checksum_trailer str_dec ℕ_discrete dec_lt log_bytes
    encode_entry_frame wire_payload session_payload frame_of
recover-seek_example =
    recover-seek sha256 toy none 2000 9 s0 (bob ∷ []) ((1, file) ∷ []) [] (2 ^ 32 + 28) 1 file file
      refl (whole_file refl) rest-NoMagic
