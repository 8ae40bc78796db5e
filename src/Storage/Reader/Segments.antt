-- ===== src/Storage/Reader/Segments.antt =====
-- A reader that starts at the first segment reads every frame of a log that was closed.
use tokmesh_go.Base.{
  ℕ, zero, suc, ◌+◌, ◌<◌, ◌≡◌, refl, ap, sym, ◌∙◌, true, false, Option, none, some, List, [], ◌∷◌,
  ◌++◌, length, arith, length-append, take-append_length,
}
use tokmesh_go.Domain.Str.{str_dec}
use tokmesh_go.Storage.Entry.{Entry}
use tokmesh_go.Storage.Codec.{Bytes, Library, Cipher, done, encode_entry_frame, read_one_entry}
use tokmesh_go.Storage.Codec.RoundTrip.{wire, IsLoggable, read_one_entry-encode}
use tokmesh_go.Storage.Codec.Truncation.{log_bytes, AllLoggable}
use tokmesh_go.Storage.Writer.{Segment, magic_bytes, seal}
use tokmesh_go.Storage.Writer.Groups.{
  Frames, content_of, all_frames, sealed_segments, verify_checksum_trailer-seal,
}
use tokmesh_go.Storage.Reader.{
  Reader, ReadResult, eof, entry, read_error, new_reader, read_header, header_valid, at, read_body,
  read_open, read_segments, read, read_until_eof,
}

-- What the reader returns for frames.
unfoldable pub read_frames : Frames → List (Option Entry)
read_frames [] = []
read_frames ((e, b) ∷ frames) = some (wire e) ∷ read_frames frames

read_frames-append : (a b : Frames) → read_frames (a ++ b) ≡ read_frames a ++ read_frames b
unfolding read_frames
read_frames-append [] b = refl
read_frames-append ((e, x) ∷ a) b = ap (◌∷◌ (some (wire e))) (read_frames-append a b)

module _ (sha256 : Bytes → Bytes) (lib : Library) (cipher : Option Cipher) where
  -- what is read from one `Read` on
  abbrev pub goes_on : ℕ → Reader × ReadResult → List (Option Entry)
  goes_on fuel p =
      let rest = read_until_eof sha256 lib cipher fuel p.0 in
      elim p.1 [ eof ↦ [] | read_error ↦ none ∷ rest | entry e ↦ some e ∷ rest ]

  abbrev Result : Type 0
  Result = Reader × ReadResult

  pub read_until_eof-read :
      (fuel : ℕ) (r : Reader) (p : Reader × ReadResult)
      → read sha256 lib cipher r ≡ p
      → read_until_eof sha256 lib cipher (suc fuel) r ≡ goes_on fuel p
  unfolding read_until_eof
  read_until_eof-read fuel r p h = ap (goes_on fuel) h

  -- What is read depends on what the next `Read` does.
  pub read_until_eof-same :
      (fuel : ℕ) (r t : Reader)
      → read sha256 lib cipher r ≡ read sha256 lib cipher t
      → read_until_eof sha256 lib cipher fuel r ≡ read_until_eof sha256 lib cipher fuel t
  unfolding read_until_eof
  read_until_eof-same zero r t h = refl
  read_until_eof-same (suc fuel) r t h = ap (goes_on fuel) h

  read-frame :
      (segments : List Segment) (e : Entry) (b rest : Bytes)
      → IsLoggable lib cipher e
      → encode_entry_frame lib cipher e ≡ done b
      → ◌≡◌ {A = Reader × ReadResult}
          (read sha256 lib cipher (at segments (b ++ rest) true))
          (at segments rest true, entry (wire e))
  unfolding read read_open read_body
  read-frame segments e b rest fit h =
      rw (read_one_entry-encode lib cipher e b rest fit h, read_body) refl

  read-end :
      (segments : List Segment)
      → read sha256 lib cipher (at segments [] true) ≡ read sha256 lib cipher (new_reader segments)
  unfolding read read_open read_body read_one_entry new_reader
  read-end segments = refl

  -- The rest of a segment is its frames, and what the segments behind it hold.
  read_frames-rest :
      (fuel n : ℕ) (segments : List Segment) (frames : Frames) (rest : List (Option Entry))
      → AllLoggable lib cipher frames
      → ((more : ℕ) → n < more → read_until_eof sha256 lib cipher more (new_reader segments) ≡ rest)
      → length frames + n < fuel
      → read_until_eof sha256 lib cipher fuel (at segments (log_bytes frames) true)
        ≡ read_frames frames ++ rest
  unfolding AllLoggable log_bytes read_frames
  read_frames-rest fuel n segments [] rest all behind enough =
      read_until_eof-same fuel (at segments [] true) (new_reader segments) (read-end segments)
      ∙ behind fuel (omega arith)
  read_frames-rest zero n segments ((e, b) ∷ frames) rest all behind enough = absurd (omega arith)
  read_frames-rest (suc fuel) n segments ((e, b) ∷ frames) rest all behind enough =
      read_until_eof-read fuel (at segments (b ++ log_bytes frames) true)
        (at segments (log_bytes frames) true, entry (wire e))
        (read-frame segments e b (log_bytes frames) all.0 all.1)
      ∙ ap (◌∷◌ (some (wire e)))
          (read_frames-rest fuel n segments frames rest all.2 behind (omega arith))

  AllLoggable-append :
      (a b : Frames)
      → AllLoggable lib cipher (a ++ b)
      → AllLoggable lib cipher a × AllLoggable lib cipher b
  unfolding AllLoggable
  AllLoggable-append [] b all = (tt, all)
  AllLoggable-append ((e, x) ∷ a) b all =
      let (first, second) = AllLoggable-append a b all.2 in ((all.0, all.1, first), second)

  module _ (sum : (b : Bytes) → length (sha256 b) ≡ 32) where
    read_header-magic : (rest : Bytes) → read_header (magic_bytes ++ rest) ≡ header_valid rest
    unfolding read_header str_dec
    read_header-magic rest = ground arith

    read_open-magic :
        (rest : Bytes) (segments : List Segment) (next : Reader × ReadResult)
        → read_open sha256 lib cipher segments (magic_bytes ++ rest) false next
          ≡ read_body sha256 lib cipher segments rest next
    unfolding read_open
    read_open-magic rest segments next = rw (read_header-magic rest, read_open) refl

    read_open-true :
        (rest : Bytes) (segments : List Segment) (next : Reader × ReadResult)
        → read_body sha256 lib cipher segments rest next
          ≡ read_open sha256 lib cipher segments rest true next
    unfolding read_open
    read_open-true rest segments next = refl

    read-sealed :
        (id : ℕ) (rest : Bytes) (segments : List Segment)
        → read sha256 lib cipher (new_reader ((id, seal sha256 (magic_bytes ++ rest)) ∷ segments))
          ≡ read sha256 lib cipher (at segments rest true)
    unfolding read new_reader read_segments read_open
    read-sealed id rest segments =
        let next = read_segments sha256 lib cipher segments 0 in
        rw (verify_checksum_trailer-seal sha256 sum rest, read_segments)
          (ap (λ l. read_open sha256 lib cipher segments l false next)
              (take-append_length (magic_bytes ++ rest) (sha256 (magic_bytes ++ rest)))
            ∙ read_open-magic rest segments next
            ∙ read_open-true rest segments next)

    -- Finished segments are read to the last frame, in order, with more fuel than frames.
    pub read_until_eof-sealed_segments :
        (fuel : ℕ) (groups : List (ℕ × Frames))
        → AllLoggable lib cipher (all_frames groups)
        → length (all_frames groups) < fuel
        → read_until_eof sha256 lib cipher fuel (new_reader (sealed_segments sha256 groups))
          ≡ read_frames (all_frames groups)
    unfolding all_frames sealed_segments read read_segments read_frames new_reader
    read_until_eof-sealed_segments zero groups all enough = absurd (omega arith)
    read_until_eof-sealed_segments (suc fuel) [] all enough =
        read_until_eof-read fuel (new_reader []) (new_reader [], eof) refl
    read_until_eof-sealed_segments (suc fuel) ((id, frames) ∷ groups) all enough =
        let (first, second) = AllLoggable-append frames (all_frames groups) all in
        let segments = sealed_segments sha256 groups in
        read_until_eof-same (suc fuel)
          (new_reader ((id, seal sha256 (content_of frames)) ∷ segments))
          (at segments (log_bytes frames) true) (read-sealed id (log_bytes frames) segments)
        ∙ read_frames-rest (suc fuel) (length (all_frames groups)) segments frames
            (read_frames (all_frames groups)) first
            (λ more h. read_until_eof-sealed_segments more groups second h)
            (omega (arith, length-append frames (all_frames groups)))
        ∙ sym (read_frames-append frames (all_frames groups))
