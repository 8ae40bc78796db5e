-- ===== src/Storage/Reader.antt =====
-- `Reader` (src/internal/storage/wal/reader.go) on the segments of a directory, in the order of their
-- IDs. Each file operation is taken to succeed, and the reader's place in the open segment is the list
-- of the bytes that are left.
pub mod Segments
pub mod Seek
use tokmesh_go.Base.{
  ℕ, zero, suc, ◌/◌, ◌%◌, ◌^◌, Bool, true, false, ◌||◌, Option, none, some, List, [], ◌∷◌, ite, ltb,
  ◌==◌, length, take, drop, if◌then◌else◌,
}
use tokmesh_go.Domain.Str.{str_dec}
use tokmesh_go.Storage.Entry.{Entry}
use tokmesh_go.Storage.Codec.{Bytes, Library, Cipher, read_one_entry, Reading, closes, fails, reads}
use tokmesh_go.Storage.Writer.{
  Segment, magic_bytes, verify_checksum_trailer, Trailer, invalid_magic, unsealed, sealed,
}

-- `Reader`; `segments` are those from `segIndex` on, and `reader` is what is left of the open one.
pub record Reader : Type 0 where
  pub segments : List Segment
  pub start_at : ℕ
  pub reader : Option Bytes
  pub header_ok : Bool

-- What `Read` returns; `read_error` is any error but `io.EOF`.
pub data ReadResult : Type 0 where
  eof read_error : ReadResult
  entry : Entry → ReadResult

-- What `readAndValidateHeader` makes of the bytes: `io.EOF`, another error, or what is behind the magic.
pub data Header : Type 0 where
  header_eof : Header
  header_error header_valid : Bytes → Header

-- `NewReader`
unfoldable pub new_reader : List Segment → Reader
new_reader disk = record { segments = disk; start_at = 0; reader = none; header_ok = false }

-- the loop of `Seek`: the segments from the first whose ID is not below the given one
unfoldable pub from_segment : ℕ → List Segment → List Segment
from_segment id [] = []
from_segment id (seg ∷ segments) =
    let rest = from_segment id segments in if ltb seg.0 id then rest else seg ∷ segments

-- `Seek` of a reader on the segments of the directory
unfoldable pub seek : List Segment → ℕ → Reader
seek disk offset = record {
  segments = from_segment (offset / 2 ^ 32) disk;
  start_at = offset % 2 ^ 32;
  reader = none;
  header_ok = false;
}

-- `readAndValidateHeader`; `io.ReadFull` takes what there is.
unfoldable pub read_header : Bytes → Header
read_header [] = header_eof
read_header (b ∷ rest) =
    let all = b ∷ rest in
    if ltb (length all) 8
    then header_error []
    else ite (str_dec (take 8 all) magic_bytes) (header_valid (drop 8 all))
        (header_error (drop 8 all))

-- the reader after `openNextSegment`, which starts at the requested offset and forgets it
abbrev pub at : List Segment → Bytes → Bool → Reader
at segments left header_ok = record {
  segments = segments;
  start_at = 0;
  reader = some left;
  header_ok = header_ok;
}

module _ (sha256 : Bytes → Bytes) (lib : Library) (cipher : Option Cipher) where
  -- the end of the loop body of `Read`: an entry, or `next` after the segment was closed
  unfoldable pub read_body : List Segment → Bytes → Reader × ReadResult → Reader × ReadResult
  read_body segments left next = elim (read_one_entry lib cipher left) [
    | closes ↦ next
    | fails rest ↦ (at segments rest true, read_error)
    | reads e rest ↦ (at segments rest true, entry e)
  ]

  -- the loop body of `Read` for an open segment
  unfoldable pub read_open : List Segment → Bytes → Bool → Reader × ReadResult → Reader × ReadResult
  read_open segments left header_ok next =
      if header_ok then read_body segments left next else elim (read_header left) [
        | header_eof ↦ (at segments [] false, eof)
        | header_error rest ↦ (at segments rest false, read_error)
        | header_valid rest ↦ read_body segments rest next
      ]

  -- the loop of `Read` without an open segment
  unfoldable pub read_segments : List Segment → ℕ → Reader × ReadResult
  read_segments [] start_at =
      (record { segments = []; start_at = start_at; reader = none; header_ok = false }, eof)
  read_segments ((id, file) ∷ segments) start_at =
      let next = read_segments segments 0 in
      elim (verify_checksum_trailer sha256 file) [
        | invalid_magic ↦ (
          record { segments = segments; start_at = start_at; reader = none; header_ok = false },
          read_error,
        )
        | unsealed ↦ read_open segments (drop start_at file) false next
        | sealed n ↦ read_open segments (drop start_at (take n file)) false next
      ]

  -- `Read`
  unfoldable pub read : Reader → Reader × ReadResult
  read r = elim r.reader [
    | none ↦ read_segments r.segments r.start_at
    | some left ↦
        read_open r.segments left (r.header_ok || ltb 0 r.start_at)
          (read_segments r.segments r.start_at)
  ]

  -- What the loop of `replayWAL` gets until the end, `none` for an error.
  unfoldable pub read_until_eof : ℕ → Reader → List (Option Entry)
  read_until_eof zero r = []
  read_until_eof (suc fuel) r =
      let rest = read_until_eof fuel (read r).0 in
      elim (read r).1 [ eof ↦ [] | read_error ↦ none ∷ rest | entry e ↦ some e ∷ rest ]
