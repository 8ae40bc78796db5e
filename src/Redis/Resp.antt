-- ===== src/Redis/Resp.antt =====
-- The commands as they are read and the replies as they are written (src/internal/server/redisserver/resp.go).
-- The connection is the list of the bytes that are still to be read.
pub mod RoundTrip
mod Tests
use tokmesh_go.Base.{
  ℕ, zero, suc, ◌+◌, ◌-◌, ◌*◌, ◌/◌, ◌^◌, ◌<◌, ◌≤◌, ◌≡◌, Bool, true, false, not, ◌&&◌, ◌||◌, Option,
  none, some, List, [], ◌∷◌, ◌++◌, ite, length, take, drop, get_or, map, ltb, leb, ◌==◌,
  if◌then◌else◌,
}
use tokmesh_go.Domain.Str.{Str, str_dec, is_empty}

-- What `strconv.Atoi` returns without an error: a number that is not negative, or one below -n.
pub data Number : Type 0 where
  pos negsuc : ℕ → Number

-- No line feed.
unfoldable pub is_line : Str → Bool
is_line [] = true
is_line (b ∷ s) = let rest = is_line s in if b == 10 then false else rest

-- What the code uses of `strconv` and `strings`. A number that is not negative is written in digits, at
-- most nineteen below 2^63, and read back.
pub record Text : Type 0 where
  pub itoa : ℕ → Str
  pub atoi : Str → Option Number
  pub trim_space : Str → Str
  pub fields : Str → List Str
  pub atoi-itoa : (n : ℕ) → n < 2 ^ 63 → atoi (trim_space (itoa n)) ≡ some (pos n)
  pub is_line-itoa : (n : ℕ) → is_line (itoa n) ≡ true
  pub length-itoa-pos : (n : ℕ) → 0 < length (itoa n)
  pub length-itoa-le : (n : ℕ) → n < 2 ^ 63 → length (itoa n) ≤ 19

pub data RespError : Type 0 where
  io_error protocol_error limit_exceeded : RespError

-- A result with the bytes that are left.
pub data Read {ℓ} (A : Type ℓ) : Type ℓ where
  failed : RespError → Read A
  got : A → Str → Read A

abbrev pub max_array_len : ℕ
max_array_len = 1024

abbrev pub max_bulk_len : ℕ
max_bulk_len = 524288

abbrev pub max_inline_len : ℕ
max_inline_len = 4096

-- the size of the buffer of `bufio.NewReader`
abbrev pub buffer_size : ℕ
buffer_size = 4096

abbrev pub crlf : Str
crlf = 13 ∷ 10 ∷ []

-- `ReadSlice('\n')`: the bytes up to the line feed and those behind it
unfoldable pub read_slice : Str → Option (Str × Str)
read_slice [] = none
read_slice (b ∷ s) =
    let rest = read_slice s in
    if b == 10 then some (b ∷ [], s) else elim rest [ none ↦ none | some p ↦ some (b ∷ p.0, p.1) ]

-- the end of `readLine`
unfoldable pub strip_line : Str → Str → Read Str
strip_line line rest =
    if ltb (length line) 2
    then failed protocol_error
    else ite (str_dec (drop (length line - 2) line) crlf) (got (take (length line - 2) line) rest)
        (failed protocol_error)

-- `readLine`; without a line feed, each full buffer is held against the limit before the end is seen.
unfoldable pub read_line : ℕ → Str → Read Str
read_line max_len s = elim (read_slice s) [
  | none ↦
      if ltb max_len (length s / buffer_size * buffer_size)
      then failed limit_exceeded
      else failed io_error
  | some p ↦ if ltb max_len (length p.0) then failed limit_exceeded else strip_line p.0 p.1
]

-- the body of a bulk string, with its end
unfoldable pub read_body : ℕ → Str → Read (Option Str)
read_body n s =
    if ltb (length s) (n + 2)
    then failed io_error
    else ite (str_dec (drop n (take (n + 2) s)) crlf) (got (some (take n s)) (drop (n + 2) s))
        (failed protocol_error)

module _ (text : Text) where
  -- the header of a bulk string; a simple string stands for itself
  unfoldable pub read_bulk_header : Str → Str → Read (Option Str)
  read_bulk_header line rest =
      if ltb (length line) 2 || not (get_or line 0 0 == 36)
      then if leb 2 (length line) && get_or line 0 0 == 43
        then got (some (drop 1 line)) rest
        else failed protocol_error
      else elim (text.atoi (text.trim_space (drop 1 line))) [
        | none ↦ failed protocol_error
        | some (negsuc n) ↦ if n == 0 then got none rest else failed protocol_error
        | some (pos n) ↦ if ltb max_bulk_len n then failed limit_exceeded else read_body n rest
      ]

  -- `readBulkString`; `none` is the nil slice
  unfoldable pub read_bulk_string : Str → Read (Option Str)
  read_bulk_string s = elim (read_line 64 s) [
    | failed e ↦ failed e
    | got line rest ↦ read_bulk_header line rest
  ]

  -- the loop of `readArrayCommand`
  unfoldable pub read_args : ℕ → Str → Read (List (Option Str))
  read_args zero s = got [] s
  read_args (suc n) s = elim (read_bulk_string s) [
    | failed e ↦ failed e
    | got arg rest ↦ elim (read_args n rest) [
      | failed e ↦ failed e
      | got args left ↦ got (arg ∷ args) left
    ]
  ]

  -- the header of an array
  unfoldable pub read_array_header : Str → Str → Read (List (Option Str))
  read_array_header line rest =
      if ltb (length line) 2 || not (get_or line 0 0 == 42)
      then failed protocol_error
      else elim (text.atoi (text.trim_space (drop 1 line))) [
        | none ↦ failed protocol_error
        | some (negsuc n) ↦ got [] rest
        | some (pos n) ↦ if ltb max_array_len n then failed limit_exceeded else read_args n rest
      ]

  -- `readArrayCommand`
  unfoldable pub read_array_command : Str → Read (List (Option Str))
  read_array_command s = elim (read_line 64 s) [
    | failed e ↦ failed e
    | got line rest ↦ read_array_header line rest
  ]

  -- an inline command
  unfoldable pub read_inline : Str → Read (List (Option Str))
  read_inline s = elim (read_line max_inline_len s) [
    | failed e ↦ failed e
    | got line rest ↦
        let trimmed = text.trim_space line in
        if is_empty trimmed then got [] rest else got (map some (text.fields trimmed)) rest
  ]

  -- `ReadCommand`
  unfoldable pub read_command : Str → Read (List (Option Str))
  read_command [] = failed io_error
  read_command (b ∷ s) = if b == 42 then read_array_command (b ∷ s) else read_inline (b ∷ s)

  -- `WriteBulk`
  unfoldable pub write_bulk : Option Str → Str
  write_bulk none = 36 ∷ 45 ∷ 49 ∷ crlf
  write_bulk (some b) = 36 ∷ (text.itoa (length b) ++ 13 ∷ 10 ∷ (b ++ crlf))

  -- `WriteArrayHeader`
  unfoldable pub write_array_header : ℕ → Str
  write_array_header n = 42 ∷ (text.itoa n ++ crlf)

  -- `WriteInteger` of a number that is not negative
  unfoldable pub write_integer : ℕ → Str
  write_integer n = 58 ∷ (text.itoa n ++ crlf)

-- `WriteSimpleString` and `WriteError`
unfoldable pub write_simple_string : Str → Str
write_simple_string s = 43 ∷ (s ++ crlf)

unfoldable pub write_error : Str → Str
write_error s = 45 ∷ (s ++ crlf)
