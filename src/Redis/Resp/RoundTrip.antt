-- ===== src/Redis/Resp/RoundTrip.antt =====
-- A command that was written as an array of bulk strings is read back.
use tokmesh_go.Base.{
  ℕ, ◌+◌, ◌-◌, ◌^◌, ◌<◌, ◌≤◌, ◌≡◌, refl, ap, sym, ◌∙◌, true, some, List, [], ◌∷◌, ◌++◌, length,
  take, drop, map, arith, length-append, take-append_length, drop-append_length,
}
use mathlib.Core.List.{append_assoc}
use tokmesh_go.Domain.Str.{Str}
use tokmesh_go.Redis.Resp.{
  Text, is_line, got, crlf, read_slice, strip_line, read_line, read_body, read_bulk_header,
  read_bulk_string, read_args, read_array_header, read_array_command, read_command, write_bulk,
  write_array_header, max_bulk_len, max_array_len,
}

read_slice-append :
    (s rest : Str) → is_line s ≡ true → read_slice (s ++ 10 ∷ rest) ≡ some (s ++ 10 ∷ [], rest)
unfolding read_slice is_line
read_slice-append [] rest h = refl
read_slice-append (b ∷ s) rest h = ground (arith, h, read_slice-append s rest)

is_line-append : (s : Str) → is_line s ≡ true → is_line (s ++ 13 ∷ []) ≡ true
unfolding is_line
is_line-append [] h = refl
is_line-append (b ∷ s) h = ground (arith, h, is_line-append s)

strip_line-crlf : (s rest : Str) → strip_line (s ++ crlf) rest ≡ got s rest
unfolding strip_line
strip_line-crlf s rest =
    let size : length (s ++ crlf) - 2 ≡ length s = omega (arith, length-append s crlf) in
    ground (arith, size, length-append s crlf, take-append_length s crlf, drop-append_length s crlf)

read_line-crlf :
    (max_len : ℕ) (s rest : Str)
    → is_line s ≡ true
    → length s + 2 ≤ max_len
    → read_line max_len (s ++ 13 ∷ 10 ∷ rest) ≡ got s rest
unfolding read_line
read_line-crlf max_len s rest h fits =
    let found : read_slice (s ++ 13 ∷ 10 ∷ rest) ≡ some (s ++ crlf, rest) =
      ap read_slice (sym (append_assoc s (13 ∷ []) (10 ∷ rest)))
      ∙ read_slice-append (s ++ 13 ∷ []) rest (is_line-append s h)
      ∙ ap (λ (l : Str). some (l, rest)) (append_assoc s (13 ∷ []) (10 ∷ [])) in
    ground (arith, found, fits, length-append s crlf, strip_line-crlf s rest)

read_body-append : (b rest : Str) → read_body (length b) ((b ++ crlf) ++ rest) ≡ got (some b) rest
unfolding read_body
read_body-append b rest =
    let all = b ++ crlf in
    let size : length all ≡ length b + 2 = length-append b crlf in
    let front : take (length b + 2) (all ++ rest) ≡ all =
      ap (λ n. take n (all ++ rest)) (sym size) ∙ take-append_length all rest in
    let back : drop (length b + 2) (all ++ rest) ≡ rest =
      ap (λ n. drop n (all ++ rest)) (sym size) ∙ drop-append_length all rest in
    let body : take (length b) (all ++ rest) ≡ b =
      ap (take (length b)) (append_assoc b crlf rest) ∙ take-append_length b (crlf ++ rest) in
    ground (arith, size, front, back, body, length-append all rest, drop-append_length b crlf)

-- The bytes of the arguments of a command.
abbrev pub write_args : Text → List Str → Str
write_args text [] = []
write_args text (b ∷ args) = write_bulk text (some b) ++ write_args text args

abbrev pub AllFit : List Str → Type 0
AllFit [] = Unit
AllFit (b ∷ args) = (length b ≤ max_bulk_len) × AllFit args

module _ (text : Text) where
  -- the line of a header
  header-line :
      (c n : ℕ) (rest : Str)
      → (c ≡ 10 → ⊥)
      → n < 2 ^ 63
      → read_line 64 (c ∷ (text.itoa n ++ 13 ∷ 10 ∷ rest)) ≡ got (c ∷ text.itoa n) rest
  unfolding is_line
  header-line c n rest other small =
      read_line-crlf 64 (c ∷ text.itoa n) rest (ground (arith, other, text.is_line-itoa n))
        (omega (arith, text.length-itoa-le n small))

  read_bulk_string-write_bulk :
      (b rest : Str)
      → length b ≤ max_bulk_len
      → read_bulk_string text (write_bulk text (some b) ++ rest) ≡ got (some b) rest
  unfolding read_bulk_string read_bulk_header write_bulk
  read_bulk_string-write_bulk b rest fits =
      let shape : (36 ∷ (text.itoa (length b) ++ 13 ∷ 10 ∷ (b ++ crlf))) ++ rest
          ≡ 36 ∷ (text.itoa (length b) ++ 13 ∷ 10 ∷ ((b ++ crlf) ++ rest)) =
        ap (◌∷◌ 36) (append_assoc (text.itoa (length b)) (13 ∷ 10 ∷ (b ++ crlf)) rest) in
      let line =
        header-line 36 (length b) ((b ++ crlf) ++ rest) (λ e. omega (arith, e))
          (omega (arith, fits)) in
      let whole : read_line 64 ((36 ∷ (text.itoa (length b) ++ 13 ∷ 10 ∷ (b ++ crlf))) ++ rest)
          ≡ got (36 ∷ text.itoa (length b)) ((b ++ crlf) ++ rest) =
        ap (read_line 64) shape ∙ line in
      ground (
        arith,
        whole,
        text.atoi-itoa (length b) (omega (arith, fits)),
        text.length-itoa-pos (length b),
        fits,
        read_body-append b rest,
      )

  read_args-write_args :
      (args : List Str) (rest : Str)
      → AllFit args
      → read_args text (length args) (write_args text args ++ rest) ≡ got (map some args) rest
  unfolding read_args
  read_args-write_args [] rest fit = refl
  read_args-write_args (b ∷ args) rest fit =
      let assoc = append_assoc (write_bulk text (some b)) (write_args text args) rest in
      let first : read_bulk_string text ((write_bulk text (some b) ++ write_args text args) ++ rest)
          ≡ got (some b) (write_args text args ++ rest) =
        ap (read_bulk_string text) assoc
        ∙ read_bulk_string-write_bulk b (write_args text args ++ rest) fit.0 in
      ground (arith, first, read_args-write_args args rest fit.1)

  -- A command that is written as an array of bulk strings, of at most 1024 arguments of at most
  -- 512 KB each and with any bytes behind it, is read as these arguments, and the bytes behind it
  -- are left.
  pub read_command-write_args :
      (args : List Str) (rest : Str)
      → length args ≤ max_array_len
      → AllFit args
      → read_command text ((write_array_header text (length args) ++ write_args text args) ++ rest)
        ≡ got (map some args) rest
  unfolding read_command read_array_command read_array_header write_array_header
  read_command-write_args args rest few fit =
      let shape : ((42 ∷ (text.itoa (length args) ++ crlf)) ++ write_args text args) ++ rest
          ≡ 42 ∷ (text.itoa (length args) ++ 13 ∷ 10 ∷ (write_args text args ++ rest)) =
        append_assoc (42 ∷ (text.itoa (length args) ++ crlf)) (write_args text args) rest
        ∙ ap (◌∷◌ 42)
            (append_assoc (text.itoa (length args)) crlf (write_args text args ++ rest)) in
      let line =
        header-line 42 (length args) (write_args text args ++ rest) (λ e. omega (arith, e))
          (omega (arith, few)) in
      let whole : read_line 64
            (((42 ∷ (text.itoa (length args) ++ crlf)) ++ write_args text args) ++ rest)
          ≡ got (42 ∷ text.itoa (length args)) (write_args text args ++ rest) =
        ap (read_line 64) shape ∙ line in
      ground (
        arith,
        whole,
        text.atoi-itoa (length args) (omega (arith, few)),
        text.length-itoa-pos (length args),
        few,
        read_args-write_args args rest fit,
      )
