-- ===== src/Redis/Resp/Tests.antt =====
-- Commands that are read, and an instance of the round trip.
use tokmesh_go.Base.{
  ℕ, ◌+◌, ◌-◌, ◌≡◌, ◌++◌, refl, true, Option, none, some, List, [], ◌∷◌, map, length, arith, ap,
  ℕ_discrete, dec_lt,
}
use tokmesh_go.Domain.Str.{Str, str_dec, bytes}
use tokmesh_go.Redis.Resp.{
  Text, Number, pos, got, failed, io_error, protocol_error, is_line, read_command,
  write_array_header, read_array_command, read_line, read_slice, strip_line,
}
use tokmesh_go.Redis.Resp.RoundTrip.{write_args, read_command-write_args}

-- a number is one digit of a large alphabet
abbrev atoi : Str → Option Number
atoi (b ∷ []) = some (pos (b - 11))
atoi _ = none

digit_lem : (n : ℕ) → some (pos ((n + 11) - 11)) ≡ some (pos n)
digit_lem n = ap (λ k. some (pos k)) (omega arith)

digit-is_line : (n : ℕ) → is_line ((n + 11) ∷ []) ≡ true
unfolding is_line
digit-is_line n = ground arith

abbrev text : Text
text = record {
  itoa = λ n. (n + 11) ∷ [];
  atoi = atoi;
  trim_space = λ s. s;
  fields = λ s. s ∷ [];
  atoi-itoa = λ n h. digit_lem n;
  is_line-itoa = digit-is_line;
  length-itoa-pos = λ n. omega arith;
  length-itoa-le = λ n h. omega arith;
}

abbrev args : List Str
args = bytes "TM.VALIDATE" ∷ bytes "tmtk_x" ∷ []

-- with the start of another command behind it
read_command-write_args_example :
    read_command text
      ((write_array_header text (length args) ++ write_args text args) ++ bytes "PI")
    ≡ got (map some args) (bytes "PI")
read_command-write_args_example =
    read_command-write_args text args (bytes "PI") (omega arith) (omega arith, (omega arith, tt))

-- no command, and a line that does not end with a carriage return
empty_test : read_command text [] ≡ failed io_error
unfolding read_command
empty_test = refl

bare_test : read_command text (42 ∷ 12 ∷ 10 ∷ []) ≡ failed protocol_error
unfolding read_command read_array_command read_line read_slice strip_line str_dec ℕ_discrete dec_lt
bare_test = refl
