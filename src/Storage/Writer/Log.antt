-- ===== src/Storage/Writer/Log.antt =====
-- What the writer has written and buffered, as frames in the order of the appends.
use tokmesh_go.Base.{
  ℕ, ◌+◌, ◌≡◌, refl, ap, sym, subst, ◌∙◌, Bool, true, false, ◌||◌, Option, none, some, List, [],
  ◌∷◌, ◌++◌, length, ltb, leb, arith, if◌then◌else◌,
}
use mathlib.Core.List.{append_assoc, append-nil}
use tokmesh_go.Storage.Entry.{Entry}
use tokmesh_go.Storage.Codec.{Bytes}
use tokmesh_go.Storage.Codec.Truncation.{log_bytes}
use tokmesh_go.Storage.Writer.{
  Writer, magic_bytes, seal, buffered, finalize, open_new_segment, rotate, write_batch, flush_batch,
  flush, buffer_frame, WriteError,
}
use tokmesh_go.Storage.Writer.Groups.{
  Frames, content_of, all_frames, all_frames-snoc, log_bytes-append, sealed_segments,
  sealed_segments-snoc,
}

abbrev pub frame_bytes : Frames → List Bytes
frame_bytes [] = []
frame_bytes ((e, b) ∷ frames) = b ∷ frame_bytes frames

frame_bytes-append : (a b : Frames) → frame_bytes (a ++ b) ≡ frame_bytes a ++ frame_bytes b
frame_bytes-append [] b = refl
frame_bytes-append ((e, x) ∷ a) b = ap (◌∷◌ x) (frame_bytes-append a b)

buffered-frame_bytes : (frames : Frames) → buffered (frame_bytes frames) ≡ log_bytes frames
unfolding buffered log_bytes
buffered-frame_bytes [] = refl
buffered-frame_bytes ((e, b) ∷ frames) = ap (◌++◌ b) (buffered-frame_bytes frames)

module _ (sha256 : Bytes → Bytes) (c : Bool) where
  -- The finished segments, the open one and the buffer have all frames, in order.
  pub record Holds (w : Writer) (frames : Frames) : Type 0 where
    pub finished : List (ℕ × Frames)
    pub current : Frames
    pub waiting : Frames
    pub on_disk : w.disk ≡ sealed_segments sha256 finished
    pub in_file : w.file ≡ some (content_of current)
    pub in_buffer : w.buffer ≡ frame_bytes waiting
    pub is_open : w.closed ≡ c
    pub in_order : frames ≡ all_frames finished ++ (current ++ waiting)

  -- the frames of a writer after the batch was written to the open segment
  write_batch-Holds :
      (w : Writer) (frames current waiting : Frames) (finished : List (ℕ × Frames))
      → w.disk ≡ sealed_segments sha256 finished
      → w.buffer ≡ frame_bytes waiting
      → w.closed ≡ c
      → frames ≡ all_frames finished ++ (current ++ waiting)
      → Holds (write_batch sha256 w (content_of current)) frames
  unfolding write_batch
  write_batch-Holds w frames current waiting finished disk buffer is_open order = record {
    finished = finished;
    current = current ++ waiting;
    waiting = [];
    on_disk = disk;
    in_file =
        ap (λ l. some (content_of current ++ l)) (ap buffered buffer ∙ buffered-frame_bytes waiting)
        ∙ ap (λ l. some (magic_bytes ++ l)) (sym (log_bytes-append current waiting));
    in_buffer = refl;
    is_open = is_open;
    in_order = order ∙ ap (λ l. all_frames finished ++ l) (sym (append-nil (current ++ waiting)));
  }

  rotated-Holds :
      (w : Writer) (frames current waiting : Frames) (finished : List (ℕ × Frames))
      → w.disk ≡ sealed_segments sha256 finished
      → w.buffer ≡ frame_bytes waiting
      → w.closed ≡ c
      → frames ≡ all_frames finished ++ (current ++ waiting)
      → Holds (write_batch sha256 (rotate sha256 w (content_of current)) magic_bytes) frames
  unfolding rotate finalize open_new_segment log_bytes
  rotated-Holds w frames current waiting finished disk buffer is_open order =
      let next = finished ++ (w.segment_id, current) ∷ [] in
      write_batch-Holds (rotate sha256 w (content_of current)) frames [] waiting next
        (ap (λ l. l ++ (w.segment_id, seal sha256 (content_of current)) ∷ []) disk
          ∙ sealed_segments-snoc sha256 finished w.segment_id current)
        buffer is_open
        (order
          ∙ sym (append_assoc (all_frames finished) current waiting)
          ∙ ap (λ l. l ++ waiting) (sym (all_frames-snoc finished w.segment_id current)))

  flush_batch-Holds :
      (w : Writer) (frames current waiting : Frames) (finished : List (ℕ × Frames))
      → w.disk ≡ sealed_segments sha256 finished
      → w.buffer ≡ frame_bytes waiting
      → w.closed ≡ c
      → frames ≡ all_frames finished ++ (current ++ waiting)
      → Holds (flush_batch sha256 w (content_of current)) frames
  unfolding flush_batch
  flush_batch-Holds w frames current waiting finished disk buffer is_open order =
      if_holds
        (ltb w.cfg.max_file_size (length (content_of current) + length (buffered w.buffer))
          || ltb w.cfg.max_entry_count (w.segment_entries + length w.buffer))
        (rotated-Holds w frames current waiting finished disk buffer is_open order)
        (write_batch-Holds w frames current waiting finished disk buffer is_open order)
    where
      if_holds :
          {a b : Writer} (d : Bool)
          → Holds a frames
          → Holds b frames
          → Holds (if d then a else b) frames
      if_holds true x y = x
      if_holds false x y = y

  flush_batch-buffer : (w : Writer) (content : Bytes) → (flush_batch sha256 w content).buffer ≡ []
  unfolding flush_batch write_batch
  flush_batch-buffer w content = ground arith

  flush-nothing : (w : Writer) → w.buffer ≡ [] → flush sha256 w ≡ (w, none)
  unfolding flush
  flush-nothing w h = ground (arith, h)

  flush-something :
      (w : Writer) (b content : Bytes) (bs : List Bytes)
      → w.buffer ≡ b ∷ bs
      → w.file ≡ some content
      → ◌≡◌ {A = Writer × Option WriteError} (flush sha256 w) (flush_batch sha256 w content, none)
  unfolding flush
  flush-something w b content bs h file = ground (arith, h, file)

  pub flush-Holds :
      (w : Writer) (frames : Frames)
      → Holds w frames
      → Holds (flush sha256 w).0 frames
        × ((flush sha256 w).1 ≡ none)
        × ((flush sha256 w).0.buffer ≡ [])
  flush-Holds w frames h = split h.waiting h.in_buffer h.in_order
    where
      split :
          (waiting : Frames)
          → w.buffer ≡ frame_bytes waiting
          → frames ≡ all_frames h.finished ++ (h.current ++ waiting)
          → Holds (flush sha256 w).0 frames
            × ((flush sha256 w).1 ≡ none)
            × ((flush sha256 w).0.buffer ≡ [])
      split [] buffer order =
          let e = flush-nothing w buffer in
          (
            subst (λ v. Holds v frames) (sym (ap (λ p. p.0) e)) h,
            ap (λ p. p.1) e,
            ap (λ p. p.0.buffer) e ∙ buffer,
          )
      split ((x, b) ∷ waiting) buffer order =
          let e =
            flush-something w b (content_of h.current) (frame_bytes waiting) buffer h.in_file in
          (
            subst (λ v. Holds v frames) (sym (ap (λ p. p.0) e))
                (flush_batch-Holds w frames h.current ((x, b) ∷ waiting) h.finished h.on_disk buffer
                  h.is_open order),
            ap (λ p. p.1) e,
            ap (λ p. p.0.buffer) e ∙ flush_batch-buffer w (content_of h.current),
          )

  -- a frame more in the buffer
  buffered-Holds :
      (w : Writer) (frames : Frames) (e : Entry) (b : Bytes)
      → Holds w frames
      → Holds
          (record w { buffer = w.buffer ++ b ∷ []; buffer_bytes = w.buffer_bytes + length b })
          (frames ++ (e, b) ∷ [])
  buffered-Holds w frames e b h = record {
    finished = h.finished;
    current = h.current;
    waiting = h.waiting ++ (e, b) ∷ [];
    on_disk = h.on_disk;
    in_file = h.in_file;
    in_buffer =
        ap (λ l. l ++ b ∷ []) h.in_buffer ∙ sym (frame_bytes-append h.waiting ((e, b) ∷ []));
    is_open = h.is_open;
    in_order =
        ap (λ l. l ++ (e, b) ∷ []) h.in_order
        ∙ append_assoc (all_frames h.finished) (h.current ++ h.waiting) ((e, b) ∷ [])
        ∙ ap (◌++◌ (all_frames h.finished)) (append_assoc h.current h.waiting ((e, b) ∷ []));
  }

  pub buffer_frame-Holds :
      (w : Writer) (frames : Frames) (e : Entry) (b : Bytes)
      → Holds w frames
      → Holds (buffer_frame sha256 w b).0 (frames ++ (e, b) ∷ [])
        × ((buffer_frame sha256 w b).1 ≡ none)
  unfolding buffer_frame
  buffer_frame-Holds w frames e b h =
      let next = record w {
        buffer = w.buffer ++ b ∷ [];
        buffer_bytes = w.buffer_bytes + length b;
      } in
      let kept = buffered-Holds w frames e b h in
      let flushed = flush-Holds next (frames ++ (e, b) ∷ []) kept in
      pick
        (leb w.cfg.batch_count (length w.buffer + 1)
          || leb w.cfg.batch_bytes (w.buffer_bytes + length b))
        (flush sha256 next) (next, none) (flushed.0, flushed.1) (kept, refl)
    where
      pick :
          (d : Bool) (p q : Writer × Option WriteError)
          → Holds p.0 (frames ++ (e, b) ∷ []) × (p.1 ≡ none)
          → Holds q.0 (frames ++ (e, b) ∷ []) × (q.1 ≡ none)
          → Holds (if d then p else q).0 (frames ++ (e, b) ∷ []) × ((if d then p else q).1 ≡ none)
      pick true p q x y = x
      pick false p q x y = y
