-- ===== src/Storage/Reader/Seek.antt =====
-- A reader that was positioned inside a segment, as a recovery with a snapshot does it.
use tokmesh_go.Base.{
  ℕ, zero, suc, ◌/◌, ◌%◌, ◌^◌, ◌<◌, ◌≡◌, ◌≢◌, refl, ap, ◌∙◌, ◌⊎◌, inl, inr, ltb, Bool-cases, false,
  Option, none, List, [], ◌∷◌, length, take, drop, replicate, arith,
}
use tokmesh_go.Domain.Session.{Session}
use tokmesh_go.Memory.Store.{Store}
use tokmesh_go.Storage.Entry.{Entry}
use tokmesh_go.Storage.Codec.{Bytes, Library, Cipher}
use tokmesh_go.Storage.Writer.{Segment, magic_bytes, verify_checksum_trailer, unsealed, sealed}
use tokmesh_go.Storage.Reader.{
  eof, read_error, seek, from_segment, read_header, header_eof, header_error, at, read_open,
  read_segments, read, read_until_eof,
}
use tokmesh_go.Storage.Reader.Segments.{read_until_eof-read, read_until_eof-same}
use tokmesh_go.Storage.Engine.{recover, replay_wal}

-- Bytes of which no eighth position, counted from the first, begins the magic.
pub data NoMagic : Bytes → Type 0 where
  short : {b : Bytes} → length b < 8 → NoMagic b
  chunk : {b : Bytes} → take 8 b ≢ magic_bytes → NoMagic (drop 8 b) → NoMagic b

-- The bytes of a segment that its reader takes.
pub data DataOf (sha256 : Bytes → Bytes) (file : Bytes) : Bytes → Type 0 where
  whole_file : verify_checksum_trailer sha256 file ≡ unsealed → DataOf sha256 file file
  before_checksum :
      (n : ℕ) → verify_checksum_trailer sha256 file ≡ sealed n → DataOf sha256 file (take n file)

AllErrors : List (Option Entry) → Type 0
AllErrors l = (k : ℕ) × (l ≡ replicate k none)

header_cases :
    (left : Bytes)
    → NoMagic left
    → (read_header left ≡ header_eof)
      ⊎ ((rest : Bytes) × (read_header left ≡ header_error rest) × NoMagic rest)
unfolding read_header
header_cases [] m = inl refl
header_cases (b ∷ l) (short h) = inr ([], ground (arith, h), short (omega arith))
header_cases (b ∷ l) (chunk ne m) = elim (Bool-cases (ltb (length (b ∷ l)) 8)) [
  | inl less ↦ inr ([], ground (arith, less), short (omega arith))
  | inr enough ↦ inr (drop 8 (b ∷ l), ground (arith, enough, ne), m)
]

replay_wal-errors : (now k n : ℕ) (s : Store) → (replay_wal now s (replicate k none) n).0 ≡ s
unfolding replay_wal
replay_wal-errors now zero n s = refl
replay_wal-errors now (suc k) n s = replay_wal-errors now k n s

module _ (sha256 : Bytes → Bytes) (lib : Library) (cipher : Option Cipher) where
  read-at :
      (segments : List Segment) (left : Bytes)
      → read sha256 lib cipher (at segments left false)
        ≡ read_open sha256 lib cipher segments left false
            (read_segments sha256 lib cipher segments 0)
  unfolding read
  read-at segments left = refl

  read_until_eof-errors :
      (fuel : ℕ) (segments : List Segment) (left : Bytes)
      → NoMagic left
      → AllErrors (read_until_eof sha256 lib cipher fuel (at segments left false))
  unfolding AllErrors read_until_eof read_open
  read_until_eof-errors zero segments left m = (0, refl)
  read_until_eof-errors (suc fuel) segments left m = elim (header_cases left m) [
    | inl h ↦ (
      0,
      read_until_eof-read sha256 lib cipher fuel (at segments left false)
          (at segments [] false, eof) (read-at segments left ∙ rw (h, read_open) refl),
    )
    | inr (rest, h, more) ↦
        let (k, e) = read_until_eof-errors fuel segments rest more in
        (
          suc k,
          read_until_eof-read sha256 lib cipher fuel (at segments left false)
                (at segments rest false, read_error)
                (read-at segments left ∙ rw (h, read_open) refl)
              ∙ ap (◌∷◌ none) e,
        )
  ]

  read-seek :
      (disk segments : List Segment) (offset id : ℕ) (file bytes : Bytes)
      → from_segment (offset / 2 ^ 32) disk ≡ (id, file) ∷ segments
      → DataOf sha256 file bytes
      → read sha256 lib cipher (seek disk offset)
        ≡ read sha256 lib cipher (at segments (drop (offset % 2 ^ 32) bytes) false)
  unfolding read seek read_segments read_open
  read-seek disk segments offset id file bytes found (whole_file v) =
      rw (found, v, read_segments) refl
  read-seek disk segments offset id file bytes found (before_checksum n v) =
      rw (found, v, read_segments) refl

  -- If a snapshot has an offset inside a segment that the reader finds, and the bytes from there
  -- on have no magic at a position that is a multiple of eight, then the recovery from the
  -- snapshot and what the reader returns from that offset is the recovery from the snapshot alone:
  -- no later entry of the log is applied, from this segment or the next ones.
  pub recover-seek :
      (now fuel : ℕ) (s : Store) (sessions : List Session) (disk segments : List Segment)
      (offset id : ℕ) (file bytes : Bytes)
      → from_segment (offset / 2 ^ 32) disk ≡ (id, file) ∷ segments
      → DataOf sha256 file bytes
      → NoMagic (drop (offset % 2 ^ 32) bytes)
      → recover now s sessions (read_until_eof sha256 lib cipher fuel (seek disk offset))
        ≡ recover now s sessions []
  unfolding recover AllErrors
  recover-seek now fuel s sessions disk segments offset id file bytes found taken none_there =
      let left = drop (offset % 2 ^ 32) bytes in
      let (k, e) = read_until_eof-errors fuel segments left none_there in
      ap (recover now s sessions) (
        read_until_eof-same sha256 lib cipher fuel (seek disk offset) (at segments left false)
          (read-seek disk segments offset id file bytes found taken)
        ∙ e)
      ∙ replay_wal-errors now k 0 _
