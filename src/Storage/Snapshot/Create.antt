-- ===== src/Storage/Snapshot/Create.antt =====
-- A snapshot that was created is the one that is loaded.
use tokmesh_go.Base.{
  ℕ, ◌+◌, ◌^◌, ◌≡◌, ◌<◌, refl, ap, sym, ◌∙◌, true, false, some, List, [], ◌∷◌, ◌++◌, length, arith,
  Option-cases, inl, inr,
}
use mathlib.Core.List.{append_assoc}
use tokmesh_go.Domain.Str.{Str, bytes}
use tokmesh_go.Domain.Strings.{
  str_eq, str_leb, pad_decimal, has_prefix-append, has_suffix-append, has_prefix,
}
use tokmesh_go.Domain.Session.{Session}
use tokmesh_go.Storage.Snapshot.{
  Library, Config, Info, loaded, load_file, encode_file, header, file_prefix, file_extension,
}
use tokmesh_go.Storage.Snapshot.RoundTrip.{load_file-encode_file}
use tokmesh_go.Storage.Snapshot.Directory.{
  File, is_snapshot, list, found, tried, load_newest, load, put_file, count_ids, generate_id,
  create,
}

-- The name sorts behind those of all files.
abbrev pub IsLast : Str → List File → Type 0
IsLast name [] = Unit
IsLast name (g ∷ dir) =
    (str_eq g.name name ≡ false) × (str_leb g.name name ≡ true) × IsLast name dir

put_file-last : (f : File) (dir : List File) → IsLast f.name dir → put_file f dir ≡ dir ++ f ∷ []
unfolding put_file
put_file-last f [] h = refl
put_file-last f (g ∷ dir) (ne, le, h) = ground (arith, ne, le, put_file-last f dir h)

list-append :
    (f : File) (dir : List File)
    → is_snapshot f.name ≡ true
    → list (dir ++ f ∷ []) ≡ list dir ++ f ∷ []
unfolding list
list-append f [] h = ground (arith, h)
list-append f (g ∷ dir) h = ground (arith, list-append f dir h)

generated-is_snapshot :
    (ts : Str) (dir : List File) → is_snapshot (generate_id ts dir ++ file_extension) ≡ true
unfolding is_snapshot generate_id
generated-is_snapshot ts dir =
    let seq = pad_decimal (count_ids ts dir + 1) in
    let front : has_prefix (file_prefix ++ ts ++ bytes "-" ++ seq ++ file_extension) file_prefix
        ≡ true =
      ap (λ s. has_prefix s file_prefix)
        (append_assoc (file_prefix ++ ts ++ bytes "-") seq file_extension
          ∙ append_assoc (file_prefix ++ ts) (bytes "-") (seq ++ file_extension)
          ∙ append_assoc file_prefix ts (bytes "-" ++ (seq ++ file_extension)))
      ∙ has_prefix-append file_prefix (ts ++ (bytes "-" ++ (seq ++ file_extension))) in
    ground (arith, front, has_suffix-append (file_prefix ++ ts ++ bytes "-" ++ seq) file_extension)

module _ (lib : Library) (cfg : Config) where
  load_newest-last :
      (f : File) (l : List File) (sessions : List Session) (info : Info)
      → load_file lib cfg f.contents ≡ loaded sessions info
      → load_newest lib cfg (l ++ f ∷ []) ≡ found sessions info
  unfolding load_newest
  load_newest-last f [] sessions info h = ap tried h
  load_newest-last f (g ∷ l) sessions info h = ground (arith, load_newest-last f l sessions info h)

  -- After `Create` of a snapshot whose name sorts behind those of all files, with texts that JSON
  -- keeps and in a file of less than 2^32 bytes, encrypted or not, `Load` gives its sessions and
  -- its offset.
  pub load-create :
      (ts : Str) (now offset : ℕ) (sessions : List Session) (dir after : List File)
      → create lib cfg ts now offset sessions dir ≡ some after
      → IsLast (generate_id ts dir ++ file_extension) dir
      → lib.IsHeaderText (header cfg now sessions offset)
      → lib.IsText sessions
      → ((file : List ℕ)
          → encode_file lib cfg now sessions offset ≡ some file
          → length file < 2 ^ 32)
      → (info : Info) × (load lib cfg after ≡ found sessions info) × (info.wal_last_offset ≡ offset)
  unfolding create load
  load-create ts now offset sessions dir after e last header_text text small =
      elim (Option-cases (encode_file lib cfg now sessions offset)) [
        | inl fails ↦ absurd (ground (arith, fails, e))
        | inr (file, is) ↦
            let name = generate_id ts dir ++ file_extension in
            let f : File = record { name = name; contents = file; mod_time = now } in
            let (info, read, offset_kept, _) =
              load_file-encode_file lib cfg now offset sessions file is header_text text
                (small file is) in
            let placed : put_file f dir ≡ after = ground (arith, is, e) in
            (
              info,
              ap (λ d. load_newest lib cfg (list d)) (sym placed ∙ put_file-last f dir last)
                  ∙ ap (load_newest lib cfg) (list-append f dir (generated-is_snapshot ts dir))
                  ∙ load_newest-last f (list dir) sessions info read,
              offset_kept,
            )
      ]
