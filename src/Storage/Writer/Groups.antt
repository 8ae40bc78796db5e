-- ===== src/Storage/Writer/Groups.antt =====
-- The frames that the segments of a directory hold.
use tokmesh_go.Base.{
  ℕ, ◌+◌, ◌-◌, ◌≡◌, refl, ap, sym, ◌∙◌, List, [], ◌∷◌, ◌++◌, length, arith, length-append,
  take-append_length, drop-append_length,
}
use mathlib.Core.List.{append_assoc, append-nil}
use tokmesh_go.Domain.Str.{str_dec}
use tokmesh_go.Storage.Entry.{Entry}
use tokmesh_go.Storage.Codec.{Bytes}
use tokmesh_go.Storage.Codec.Truncation.{log_bytes}
use tokmesh_go.Storage.Writer.{Segment, magic_bytes, seal, verify_checksum_trailer, sealed}

abbrev pub Frames : Type 0
Frames = List (Entry × Bytes)

-- the bytes of a segment with these frames, without a checksum
abbrev pub content_of : Frames → Bytes
content_of frames = magic_bytes ++ log_bytes frames

-- The frames of all segments, in order.
unfoldable pub all_frames : List (ℕ × Frames) → Frames
all_frames [] = []
all_frames ((id, frames) ∷ groups) = frames ++ all_frames groups

pub log_bytes-append : (a b : Frames) → log_bytes (a ++ b) ≡ log_bytes a ++ log_bytes b
unfolding log_bytes
log_bytes-append [] b = refl
log_bytes-append ((e, x) ∷ a) b =
    ap (◌++◌ x) (log_bytes-append a b) ∙ sym (append_assoc x (log_bytes a) (log_bytes b))

all_frames-append : (a b : List (ℕ × Frames)) → all_frames (a ++ b) ≡ all_frames a ++ all_frames b
unfolding all_frames
all_frames-append [] b = refl
all_frames-append ((id, frames) ∷ a) b =
    ap (◌++◌ frames) (all_frames-append a b)
    ∙ sym (append_assoc frames (all_frames a) (all_frames b))

pub all_frames-snoc :
    (groups : List (ℕ × Frames)) (id : ℕ) (frames : Frames)
    → all_frames (groups ++ (id, frames) ∷ []) ≡ all_frames groups ++ frames
unfolding all_frames
all_frames-snoc groups id frames =
    all_frames-append groups ((id, frames) ∷ []) ∙ ap (◌++◌ (all_frames groups)) (append-nil frames)

module _ (sha256 : Bytes → Bytes) where
  -- Finished segments with these frames.
  unfoldable pub sealed_segments : List (ℕ × Frames) → List Segment
  sealed_segments [] = []
  sealed_segments ((id, frames) ∷ groups) =
      (id, seal sha256 (content_of frames)) ∷ sealed_segments groups

  sealed_segments-append :
      (a b : List (ℕ × Frames)) → sealed_segments (a ++ b) ≡ sealed_segments a ++ sealed_segments b
  unfolding sealed_segments
  sealed_segments-append [] b = refl
  sealed_segments-append ((id, frames) ∷ a) b =
      ap (◌∷◌ (id, seal sha256 (content_of frames))) (sealed_segments-append a b)

  pub sealed_segments-snoc :
      (groups : List (ℕ × Frames)) (id : ℕ) (frames : Frames)
      → sealed_segments groups ++ (id, seal sha256 (content_of frames)) ∷ []
        ≡ sealed_segments (groups ++ (id, frames) ∷ [])
  unfolding sealed_segments
  sealed_segments-snoc groups id frames = sym (sealed_segments-append groups ((id, frames) ∷ []))

  module _ (sum : (b : Bytes) → length (sha256 b) ≡ 32) where
    -- A segment that was sealed is found to be, and ends where its checksum begins.
    pub verify_checksum_trailer-seal :
        (rest : Bytes)
        → verify_checksum_trailer sha256 (seal sha256 (magic_bytes ++ rest))
          ≡ sealed (length (magic_bytes ++ rest))
    unfolding verify_checksum_trailer str_dec
    verify_checksum_trailer-seal rest =
        let content = magic_bytes ++ rest in
        let size : length (content ++ sha256 content) ≡ length content + 32 =
          length-append content (sha256 content) ∙ omega (arith, sum content) in
        let at : length (content ++ sha256 content) - 32 ≡ length content = omega (arith, size) in
        ground (
          arith,
          size,
          at,
          take-append_length content (sha256 content),
          drop-append_length content (sha256 content),
        )
