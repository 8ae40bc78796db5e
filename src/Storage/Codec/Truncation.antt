-- ===== src/Storage/Codec/Truncation.antt =====
-- What a reader finds in a log that was cut off while it was written.
use tokmesh_go.Base.{
  ℕ, zero, suc, ◌+◌, ◌-◌, ◌^◌, ◌≡◌, ◌<◌, ◌≤◌, refl, ap, ◌∙◌, Option, some, List, [], ◌∷◌, ◌++◌, ltb,
  if◌then◌else◌, length, take, arith, length-take-le, take-append, take-append_le, inl, inr,
  Bool-cases,
}
use tokmesh_go.Storage.Entry.{Entry}
use tokmesh_go.Storage.Codec.{
  Bytes, Library, Cipher, done, put_uint32, encode_entry_frame, read_one_entry, read_length,
  read_entries, closes, reads,
}
use tokmesh_go.Storage.Codec.RoundTrip.{
  wire, IsLoggable, read_one_entry-encode, put_uint32_lem, body, length-body, frame_parts,
}

-- The bytes of a log of entries, each with its frame.
unfoldable pub log_bytes : List (Entry × Bytes) → Bytes
log_bytes [] = []
log_bytes ((e, b) ∷ frames) = b ++ log_bytes frames

-- The entries of the frames that end within so many bytes.
unfoldable pub whole : ℕ → List (Entry × Bytes) → List (Option Entry)
whole n [] = []
whole n ((e, b) ∷ frames) =
    let rest = whole (n - length b) frames in if ltb n (length b) then [] else some (wire e) ∷ rest

module _ (lib : Library) (cipher : Option Cipher) where
  unfoldable pub AllLoggable : List (Entry × Bytes) → Type 0
  AllLoggable [] = Unit
  AllLoggable ((e, b) ∷ frames) =
      IsLoggable lib cipher e × (encode_entry_frame lib cipher e ≡ done b) × AllLoggable frames

  -- a frame of which the length says more than there is
  short_frame : (n m : ℕ) (bytes : Bytes) → m < n → read_length lib cipher n (take m bytes) ≡ closes
  unfolding read_length
  short_frame n m bytes h = ground (arith, length-take-le m bytes)

  part_closes :
      (n size : ℕ) (bytes : Bytes)
      → size < 2 ^ 32
      → n < 4 + size
      → read_one_entry lib cipher (take n (put_uint32 size ++ bytes)) ≡ closes
  unfolding read_one_entry
  part_closes zero size bytes h g = refl
  part_closes (suc zero) size bytes h g = refl
  part_closes (suc (suc zero)) size bytes h g = refl
  part_closes (suc (suc (suc zero))) size bytes h g = refl
  part_closes (suc (suc (suc (suc m)))) size bytes h g =
      ap (λ k. read_length lib cipher k (take m bytes)) (put_uint32_lem size h)
      ∙ short_frame size m bytes (omega arith)

  module _ (e : Entry) (b : Bytes) (fit : IsLoggable lib cipher e)
      (h : encode_entry_frame lib cipher e ≡ done b) where
    frame_part_closes : (n : ℕ) → n < length b → read_one_entry lib cipher (take n b) ≡ closes
    frame_part_closes n less =
        let (p, f, shape) = frame_parts lib cipher e b fit h in
        let size = 5 + length (lib.marshal p) in
        let whole_frame = put_uint32 size ++ body lib cipher e.op_type (lib.marshal p) in
        ap (λ (l : Bytes). read_one_entry lib cipher (take n l)) shape
        ∙ part_closes n size (body lib cipher e.op_type (lib.marshal p)) (fit.small p f)
            (omega (arith, less, ap length shape, length-body lib cipher e.op_type (lib.marshal p)))

    frame_pos : 0 < length b
    frame_pos =
        let (p, f, shape) = frame_parts lib cipher e b fit h in omega (arith, ap length shape)

  read_entries-closes :
      (fuel : ℕ) (bytes : Bytes)
      → read_one_entry lib cipher bytes ≡ closes
      → read_entries lib cipher fuel bytes ≡ []
  unfolding read_entries
  read_entries-closes zero bytes h = refl
  read_entries-closes (suc fuel) bytes h = rw (h, read_entries) refl

  read_entries-reads :
      (fuel : ℕ) (bytes rest : Bytes) (e : Entry)
      → read_one_entry lib cipher bytes ≡ reads e rest
      → read_entries lib cipher (suc fuel) bytes ≡ some e ∷ read_entries lib cipher fuel rest
  unfolding read_entries
  read_entries-reads fuel bytes rest e h = rw (h, read_entries) refl

  -- The reader of a log that was cut off anywhere returns the entries whose frames are whole, and
  -- then closes the segment. The number of bytes is fuel enough.
  pub read_entries-truncated :
      (fuel n : ℕ) (frames : List (Entry × Bytes))
      → AllLoggable frames
      → n ≤ fuel
      → read_entries lib cipher fuel (take n (log_bytes frames)) ≡ whole n frames
  unfolding AllLoggable log_bytes whole read_one_entry
  read_entries-truncated fuel zero [] all le = read_entries-closes fuel [] refl
  read_entries-truncated fuel (suc n) [] all le = read_entries-closes fuel [] refl
  read_entries-truncated zero zero ((e, b) ∷ frames) all le =
      read_entries-closes zero [] refl ∙ ground (arith, frame_pos e b all.0 all.1)
  read_entries-truncated zero (suc n) ((e, b) ∷ frames) all le = absurd (omega arith)
  read_entries-truncated (suc fuel) n ((e, b) ∷ frames) all le =
      elim (Bool-cases (ltb n (length b))) [
        | inl cut ↦
            let less : n < length b = ground (arith, cut) in
            ap (read_entries lib cipher (suc fuel))
              (take-append_le n b (log_bytes frames) (omega arith))
            ∙ read_entries-closes (suc fuel) (take n b) (frame_part_closes e b all.0 all.1 n less)
            ∙ rw cut refl
        | inr fits ↦
            let rest = take (n - length b) (log_bytes frames) in
            let more : n ≡ length b + (n - length b) = ground (arith, fits) in
            ap (read_entries lib cipher (suc fuel))
              (take-append n (n - length b) b (log_bytes frames) more)
            ∙ read_entries-reads fuel (b ++ rest) rest (wire e)
                (read_one_entry-encode lib cipher e b rest all.0 all.1)
            ∙ ap (◌∷◌ (some (wire e))) (
                read_entries-truncated fuel (n - length b) frames all.2
                  (omega (arith, frame_pos e b all.0 all.1)))
            ∙ rw fits refl
      ]
