-- ===== src/Storage/Writer/Appends.antt =====
-- The appends of a run of the writer, and its close.
use tokmesh_go.Base.{
  ℕ, ◌≡◌, refl, ap, sym, subst, ◌∙◌, true, false, Option, none, List, [], ◌∷◌, ◌++◌, arith,
}
use mathlib.Core.List.{append_assoc, append-nil}
use tokmesh_go.Storage.Entry.{Entry}
use tokmesh_go.Storage.Codec.{Bytes, Library, Cipher, done, encode_entry_frame}
use tokmesh_go.Storage.Writer.{
  Writer, seal, finalize, flush, buffer_frame, append, close, WriteError,
}
use tokmesh_go.Storage.Writer.Groups.{
  Frames, content_of, all_frames, all_frames-snoc, sealed_segments, sealed_segments-snoc,
}
use tokmesh_go.Storage.Writer.Log.{Holds, frame_bytes, flush-Holds, buffer_frame-Holds}

nothing_waiting : (frames : Frames) → frame_bytes frames ≡ [] → frames ≡ []
nothing_waiting [] h = refl
nothing_waiting ((e, b) ∷ frames) h = absurd (ground (arith, h))

unfoldable pub AllEncoded : Library → Option Cipher → Frames → Type 0
AllEncoded lib cipher [] = Unit
AllEncoded lib cipher ((e, b) ∷ frames) =
    (encode_entry_frame lib cipher e ≡ done b) × AllEncoded lib cipher frames

module _ (sha256 : Bytes → Bytes) (lib : Library) (cipher : Option Cipher) where
  pub append-Holds :
      (w : Writer) (frames : Frames) (e : Entry) (b : Bytes)
      → encode_entry_frame lib cipher e ≡ done b
      → Holds sha256 false w frames
      → Holds sha256 false (append sha256 lib cipher w e).0 (frames ++ (e, b) ∷ [])
        × ((append sha256 lib cipher w e).1 ≡ none)
  unfolding append
  append-Holds w frames e b encoded h =
      let same : ◌≡◌ {A = Writer × Option WriteError} (append sha256 lib cipher w e)
          (buffer_frame sha256 w b) =
        ground (arith, h.is_open, encoded) in
      subst (λ p. Holds sha256 false p.0 (frames ++ (e, b) ∷ []) × (p.1 ≡ none)) (sym same)
        (buffer_frame-Holds sha256 false w frames e b h)

  -- the writer after appends
  abbrev pub append_all : Writer → Frames → Writer
  append_all w [] = w
  append_all w ((e, b) ∷ frames) = append_all (append sha256 lib cipher w e).0 frames

  pub append_all-Holds :
      (w : Writer) (before frames : Frames)
      → AllEncoded lib cipher frames
      → Holds sha256 false w before
      → Holds sha256 false (append_all w frames) (before ++ frames)
  unfolding AllEncoded
  append_all-Holds w before [] all h = subst (Holds sha256 false w) (sym (append-nil before)) h
  append_all-Holds w before ((e, b) ∷ frames) all h =
      subst (Holds sha256 false (append_all (append sha256 lib cipher w e).0 frames))
        (append_assoc before ((e, b) ∷ []) frames)
        (append_all-Holds (append sha256 lib cipher w e).0 (before ++ (e, b) ∷ []) frames all.1
          (append-Holds w before e b all.0 h).0)

module _ (sha256 : Bytes → Bytes) (w : Writer) (frames : Frames)
    (h : Holds sha256 false w frames) where
  closing : Holds sha256 true (record w { closed = true }) frames
  closing = record {
    finished = h.finished;
    current = h.current;
    waiting = h.waiting;
    on_disk = h.on_disk;
    in_file = h.in_file;
    in_buffer = h.in_buffer;
    is_open = refl;
    in_order = h.in_order;
  }

  -- `Close` succeeds, and leaves finished segments that have all frames in order.
  pub close-Holds :
      (groups : List (ℕ × Frames)) × ((close sha256 w).0.disk ≡ sealed_segments sha256 groups)
      × (frames ≡ all_frames groups)
      × ((close sha256 w).1 ≡ none)
  unfolding close finalize
  close-Holds =
      let (f, fine, empty) = flush-Holds sha256 true (record w { closed = true }) frames closing in
      let closed_as : ◌≡◌ {A = Writer × Option WriteError} (close sha256 w) (
        finalize sha256 (flush sha256 (record w { closed = true })).0 (content_of f.current),
        none,
      ) =
        ground (arith, h.is_open, h.in_file, fine, f.in_file) in
      let none_left = nothing_waiting f.waiting (sym f.in_buffer ∙ empty) in
      let id = (flush sha256 (record w { closed = true })).0.segment_id in
      (
        f.finished ++ (id, f.current) ∷ [],
        ap (λ p. p.0.disk) closed_as
            ∙ ap (λ l. l ++ (id, seal sha256 (content_of f.current)) ∷ []) f.on_disk
            ∙ sealed_segments-snoc sha256 f.finished id f.current,
        f.in_order
            ∙ ap (λ l. all_frames f.finished ++ (f.current ++ l)) none_left
            ∙ ap (◌++◌ (all_frames f.finished)) (append-nil f.current)
            ∙ sym (all_frames-snoc f.finished id f.current),
        ap (λ p. p.1) closed_as,
      )
