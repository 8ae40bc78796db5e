-- ===== src/Storage/Writer.antt =====
-- The segments of the write-ahead log and their writer (src/internal/storage/wal/writer.go). The files
-- of the directory are a list in the order of their IDs. Each file operation is taken to succeed; the
-- lock and the loop that flushes now and then leave `Append`, `Flush` and `Close` one step each.
pub mod Groups
pub mod Log
pub mod Appends
use tokmesh_go.Base.{
  ℕ, ◌+◌, ◌-◌, ◌*◌, ◌%◌, ◌^◌, Bool, true, false, ◌||◌, Option, none, some, List, [], ◌∷◌, ◌++◌, ite,
  ltb, leb, ◌==◌, length, take, drop, if◌then◌else◌,
}
use tokmesh_go.Domain.Str.{str_dec}
use tokmesh_go.Storage.Entry.{Entry}
use tokmesh_go.Storage.Codec.{
  Bytes, Library, Cipher, FrameResult, FrameError, failed, done, encode_entry_frame,
}

-- "TOKMWAL\x01"
abbrev pub magic_bytes : Bytes
magic_bytes = 84 ∷ 79 ∷ 75 ∷ 77 ∷ 87 ∷ 65 ∷ 76 ∷ 1 ∷ []

-- A segment file: its ID and its bytes.
abbrev pub Segment : Type 0
Segment = ℕ × Bytes

pub record Config : Type 0 where
  pub batch_count : ℕ
  pub batch_bytes : ℕ
  pub max_file_size : ℕ
  pub max_entry_count : ℕ

-- `applyDefaults`
unfoldable pub apply_defaults : Config → Config
apply_defaults c = record {
  batch_count = if c.batch_count == 0 then 100 else c.batch_count;
  batch_bytes = if c.batch_bytes == 0 then 2 ^ 20 else c.batch_bytes;
  max_file_size = if c.max_file_size == 0 then 64 * 2 ^ 20 else c.max_file_size;
  max_entry_count = if c.max_entry_count == 0 then 100000 else c.max_entry_count;
}

-- `Writer`; `disk` has the segments before the open one, and `file` the bytes of the open one, of which
-- `fileSize` is the length and `hash` the state.
pub record Writer : Type 0 where
  pub cfg : Config
  pub segment_id : ℕ
  pub disk : List Segment
  pub file : Option Bytes
  pub segment_entries : ℕ
  pub buffer : List Bytes
  pub buffer_bytes : ℕ
  pub closed : Bool

pub data WriteError : Type 0 where
  writer_closed file_not_open : WriteError
  frame_failed : FrameError → WriteError

-- What `verifyChecksumTrailer` finds at the end of a segment.
pub data Trailer : Type 0 where
  invalid_magic unsealed : Trailer
  sealed : ℕ → Trailer

-- the loop over the buffer in `flushLocked`
unfoldable pub buffered : List Bytes → Bytes
buffered [] = []
buffered (frame ∷ buffer) = frame ++ buffered buffer

-- `CurrentOffset`
unfoldable pub current_offset : Writer → ℕ
current_offset w =
    w.segment_id % 2 ^ 32 * 2 ^ 32
    + elim w.file [ none ↦ 0 | some content ↦ length content % 2 ^ 32 ]

module _ (sha256 : Bytes → Bytes) where
  -- a segment with its checksum
  abbrev pub seal : Bytes → Bytes
  seal content = content ++ sha256 content

  -- `finalizeSegmentWithoutFlushingLocked`
  unfoldable pub finalize : Writer → Bytes → Writer
  finalize w content = record w { disk = w.disk ++ (w.segment_id, seal content) ∷ []; file = none }

  -- `openNewSegment`
  unfoldable pub open_new_segment : Writer → Writer
  open_new_segment w = record w { file = some magic_bytes; segment_entries = 0 }

  -- the rotation in `flushLocked`
  unfoldable pub rotate : Writer → Bytes → Writer
  rotate w content =
      let f = finalize w content in
      open_new_segment (record f { segment_id = (w.segment_id + 1) % 2 ^ 64 })

  -- the batch written to the open segment
  unfoldable pub write_batch : Writer → Bytes → Writer
  write_batch w content = record w {
    file = some (content ++ buffered w.buffer);
    segment_entries = w.segment_entries + length w.buffer;
    buffer = [];
    buffer_bytes = 0;
  }

  -- `flushLocked` for an open file and a buffer that is not empty
  unfoldable pub flush_batch : Writer → Bytes → Writer
  flush_batch w content =
      if ltb w.cfg.max_file_size (length content + length (buffered w.buffer))
        || ltb w.cfg.max_entry_count (w.segment_entries + length w.buffer)
      then write_batch (rotate w content) magic_bytes
      else write_batch w content

  -- `flushLocked`
  unfoldable pub flush : Writer → Writer × Option WriteError
  flush w = elim w.buffer [
    | [] ↦ (w, none)
    | _ ∷ _ ↦ elim w.file [
      | none ↦ (w, some file_not_open)
      | some content ↦ (flush_batch w content, none)
    ]
  ]

  -- `Append` after the frame was encoded
  unfoldable pub buffer_frame : Writer → Bytes → Writer × Option WriteError
  buffer_frame w frame =
      let next = record w {
        buffer = w.buffer ++ frame ∷ [];
        buffer_bytes = w.buffer_bytes + length frame;
      } in
      let flushed = flush next in
      if leb w.cfg.batch_count (length w.buffer + 1)
        || leb w.cfg.batch_bytes (w.buffer_bytes + length frame)
      then flushed
      else (next, none)

  -- `Append`
  unfoldable pub append : Library → Option Cipher → Writer → Entry → Writer × Option WriteError
  append lib cipher w e =
      if w.closed then (w, some writer_closed) else elim (encode_entry_frame lib cipher e) [
        | failed x ↦ (w, some (frame_failed x))
        | done frame ↦ buffer_frame w frame
      ]

  -- `Close`; a file that is open is flushed and gets its checksum.
  unfoldable pub close : Writer → Writer × Option WriteError
  close w =
      if w.closed
      then (w, none)
      else let v = record w { closed = true } in
        elim w.file [
          | none ↦ (v, none)
          | some _ ↦
              let r = flush v in
              elim r.1 [
                | some x ↦ r
                | none ↦ elim r.0.file [ none ↦ r | some content ↦ (finalize r.0 content, none) ]
              ]
        ]

  -- `verifyChecksumTrailer`
  unfoldable pub verify_checksum_trailer : Bytes → Trailer
  verify_checksum_trailer file =
      if ltb (length file) 8
      then unsealed
      else ite (str_dec (take 8 file) magic_bytes)
          (if ltb (length file) 40
            then unsealed
            else ite
                (str_dec (sha256 (take (length file - 32) file)) (drop (length file - 32) file))
                (sealed (length file - 32)) unsealed)
          invalid_magic

  -- a writer on its first segment of a directory
  abbrev on_segment : Config → List Segment → ℕ → Bytes → Writer
  on_segment cfg disk id content = record {
    cfg = apply_defaults cfg;
    segment_id = id;
    disk = disk;
    file = some content;
    segment_entries = 0;
    buffer = [];
    buffer_bytes = 0;
    closed = false;
  }

  -- `openExistingOpenSegment` on a segment without a checksum: a file too short for the magic is an error.
  unfoldable pub open_existing : Config → List Segment → ℕ → Bytes → Option Writer
  open_existing cfg disk id content =
      if ltb (length content) 8
      then none
      else ite (str_dec (take 8 content) magic_bytes) (some (on_segment cfg disk id content)) none

  -- `NewWriter` on the segments before the last, and the last
  unfoldable pub new_writer : Config → List Segment → Option Segment → Option Writer
  new_writer cfg disk none = some (on_segment cfg disk 1 magic_bytes)
  new_writer cfg disk (some (id, content)) =
      let on_next =
        some (on_segment cfg (disk ++ (id, content) ∷ []) ((id + 1) % 2 ^ 64) magic_bytes) in
      if id == 0 then on_next else elim (verify_checksum_trailer content) [
        | sealed n ↦ on_next
        | _ ↦ open_existing cfg disk id content
      ]
