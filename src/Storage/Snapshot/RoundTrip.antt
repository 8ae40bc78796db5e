-- ===== src/Storage/Snapshot/RoundTrip.antt =====
-- The file that `Create` writes is read by `loadFile` as the sessions.
use tokmesh_go.Base.{
  ℕ, ◌+◌, ◌-◌, ◌^◌, ◌≡◌, ◌<◌, ◌≤◌, refl, ap, sym, ◌∙◌, some, List, [], ◌++◌, length, take, drop,
  arith, Option-cases, inl, inr, length-append, take-append_length, drop-append_length,
}
use mathlib.Core.List.{append-nil}
use tokmesh_go.Domain.Session.{Session}
use tokmesh_go.Storage.Codec.{Bytes, put_uint32}
use tokmesh_go.Storage.Codec.RoundTrip.{put_uint32_lem}
use tokmesh_go.Storage.Snapshot.{
  Library, Config, Header, Info, loaded, magic_bytes, read_full, read_uint32, read_block, sealed,
  header, body_of, with_sum, encode_file, decode_sessions, info_of, load_data, load_header,
  load_file, is_encrypting,
}

read_full-append : (b r : Bytes) → read_full (length b) (b ++ r) ≡ some (b, r)
unfolding read_full
read_full-append b r =
    ground (arith, length-append {0} b r, take-append_length {0} b r, drop-append_length {0} b r)

-- A block behind its length is read back.
read_block-append :
    (b r : Bytes) → length b < 2 ^ 32 → read_block (put_uint32 (length b) ++ (b ++ r)) ≡ some (b, r)
unfolding read_block read_uint32
read_block-append b r small =
    ap (λ n. read_full n (b ++ r)) (put_uint32_lem (length b) small) ∙ read_full-append b r

module _ (lib : Library) (cfg : Config) where
  decode_sessions-sealed :
      (sessions : List Session) (block : Bytes)
      → lib.IsText sessions
      → sealed cfg.cipher (lib.marshal_sessions sessions) ≡ some block
      → decode_sessions lib cfg (is_encrypting cfg.cipher) block ≡ some sessions
  unfolding decode_sessions
  decode_sessions-sealed sessions block text e = elim (Option-cases cfg.cipher) [
    | inl plain ↦ ground (arith, plain, e, lib.sessions_lem sessions text)
    | inr (c, secret) ↦ ground (
      arith,
      secret,
      e,
      c.decrypt-encrypt (lib.marshal_sessions sessions) block,
      lib.sessions_lem sessions text,
    )
  ]

  -- What the reader makes of the part behind the magic.
  load_header-body :
      (h : Header) (block sum : Bytes) (size : ℕ) (sessions : List Session)
      → lib.IsHeaderText h
      → length (lib.marshal_header h) < 2 ^ 32
      → length block < 2 ^ 32
      → decode_sessions lib cfg h.encrypted block ≡ some sessions
      → load_header lib cfg size sum (
          put_uint32 (length (lib.marshal_header h))
          ++ (lib.marshal_header h ++ (put_uint32 (length block) ++ block)))
        ≡ loaded sessions (info_of h size sum)
  unfolding load_header load_data
  load_header-body h block sum size sessions text small fits decoded =
      let rest = put_uint32 (length block) ++ block in
      let data_block : read_block rest ≡ some (block, []) =
        ap (λ b. read_block (put_uint32 (length block) ++ b)) (sym (append-nil block))
        ∙ read_block-append block [] fits in
      ground (
        arith,
        read_block-append (lib.marshal_header h) rest small,
        lib.header_lem h text,
        lib.header_pos h,
        data_block,
        decoded,
      )

  body-pos : (header_json block : Bytes) → 8 ≤ length (body_of header_json block)
  body-pos header_json block = omega (
    arith,
    length-append {0} magic_bytes
        (put_uint32 (length header_json) ++ (header_json ++ (put_uint32 (length block) ++ block))),
  )

  -- A whole file is split into what was summed and the sum.
  load_file-with_sum :
      (body : Bytes)
      → 8 ≤ length body
      → take 8 body ≡ magic_bytes
      → load_file lib cfg (with_sum lib cfg body)
        ≡ load_header lib cfg (length body + 32) (lib.sha256 body) (drop 8 body)
  unfolding load_file
  load_file-with_sum body long starts =
      let sum = lib.sha256 body in
      let size : length (body ++ sum) ≡ length body + 32 =
        omega (arith, length-append {0} body sum, lib.sha256_size body) in
      let cut : length (body ++ sum) - 32 ≡ length body = omega (arith, size) in
      let front : take (length (body ++ sum) - 32) (body ++ sum) ≡ body =
        ap (λ n. take n (body ++ sum)) cut ∙ take-append_length {0} body sum in
      let back : drop (length (body ++ sum) - 32) (body ++ sum) ≡ sum =
        ap (λ n. drop n (body ++ sum)) cut ∙ drop-append_length {0} body sum in
      ground (arith, size, front, back, starts, long)

  blocks_fit :
      (header_json block file : Bytes)
      → with_sum lib cfg (body_of header_json block) ≡ file
      → length file < 2 ^ 32
      → (length header_json < 2 ^ 32) × (length block < 2 ^ 32)
  blocks_fit header_json block file whole small =
      let back = put_uint32 (length block) ++ block in
      let rest = put_uint32 (length header_json) ++ (header_json ++ back) in
      let total = length-append {0} (magic_bytes ++ rest) (lib.sha256 (magic_bytes ++ rest)) in
      let inner = length-append {0} header_json back in
      let size = ap (length {0}) whole in
      (omega (arith, total, inner, size), omega (arith, total, inner, size))

  -- The file that `Create` encodes, with texts that JSON keeps and of less than 2^32 bytes, is read as
  -- the sessions and the offset.
  pub load_file-encode_file :
      (now offset : ℕ) (sessions : List Session) (file : Bytes)
      → encode_file lib cfg now sessions offset ≡ some file
      → lib.IsHeaderText (header cfg now sessions offset)
      → lib.IsText sessions
      → length file < 2 ^ 32
      → (info : Info) × (load_file lib cfg file ≡ loaded sessions info)
        × (info.wal_last_offset ≡ offset)
        × (info.session_count ≡ length sessions)
  unfolding encode_file
  load_file-encode_file now offset sessions file e header_text text small =
      elim (Option-cases (sealed cfg.cipher (lib.marshal_sessions sessions))) [
        | inl fails ↦ absurd (ground (arith, fails, e))
        | inr (block, is) ↦
            let h = header cfg now sessions offset in
            let header_json = lib.marshal_header h in
            let body = body_of header_json block in
            let whole : with_sum lib cfg body ≡ file = ground (arith, is, e) in
            let (header_fits, block_fits) = blocks_fit header_json block file whole small in
            (
              info_of h (length body + 32) (lib.sha256 body),
              ap (load_file lib cfg) (sym whole)
                  ∙ load_file-with_sum body (body-pos header_json block) refl
                  ∙ load_header-body h block (lib.sha256 body) (length body + 32) sessions
                      header_text header_fits block_fits
                      (decode_sessions-sealed sessions block text is),
              refl,
              refl,
            )
      ]
