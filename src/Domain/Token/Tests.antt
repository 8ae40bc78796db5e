-- ===== src/Domain/Token/Tests.antt =====
-- Token strings, and instances of the theorems on them.
use tokmesh_go.Base.{ℕ, ◌≡◌, refl, true, false, List, [], ◌∷◌, ◌++◌, length, arith}
use tokmesh_go.Domain.Str.{Str, bytes}
use tokmesh_go.Domain.Token
use tokmesh_go.Domain.Token.{
  hash_token, mask_token, normalize_token_hash, validate_token_format, validate_token_hash_format,
}
use tokmesh_go.Domain.Token.Format.{AllBytes}

unfoldable program : Unit {0}
unfolding Token.has_prefix Token.from Token.lower Token.to_lower Token.is_hex_digit
    Token.hex_decodes Token.nibble Token.hex_encode Token.hash_token Token.is_url_char
    Token.url_decodes Token.validate_token_format Token.validate_token_hash_format
    Token.normalize_token_hash Token.mask_token
program = tt

accepts : validate_token_format (bytes "tmtk_AAAAAAAAAABBBBBBBBBBCCCCCCCCCC-_00000000001") ≡ true
unfolding program
accepts = refl

rejects_space :
    validate_token_format (bytes "tmtk_AAAAAAAAAABBBBBBBBBBCCCCCCCCCC-_0000000 001") ≡ false
unfolding program
rejects_space = refl

-- A line break in the body is accepted.
accepts_line_break :
    validate_token_format (bytes "tmtk_AAAAAAAAAABBBBBBBBBBCCCCCCCCCC-_0000000" ++ 10 ∷ bytes "001")
    ≡ true
unfolding program
accepts_line_break = refl

masks : mask_token (bytes "tmtk_abcdefghijklm") ≡ bytes "tmtk_abc...klm"
unfolding program
masks = refl

abbrev upper_hash : Str
upper_hash = bytes "TMTH_ABCDEFABCDEFABCDEFABCDEFABCDEFABCDEFABCDEFABCDEFABCDEFABCDEF0123"

-- a digest of 32 bytes
abbrev digest : Str → List ℕ
digest s =
    length s
    ∷ 255
    ∷ 17
    ∷ 18
    ∷ 19
    ∷ 20
    ∷ 21
    ∷ 22
    ∷ 23
    ∷ 24
    ∷ 25
    ∷ 26
    ∷ 27
    ∷ 28
    ∷ 29
    ∷ 30
    ∷ 31
    ∷ 32
    ∷ 33
    ∷ 34
    ∷ 35
    ∷ 36
    ∷ 37
    ∷ 38
    ∷ 39
    ∷ 40
    ∷ 41
    ∷ 42
    ∷ 43
    ∷ 44
    ∷ 45
    ∷ 46
    ∷ []

digest-AllBytes : AllBytes (digest (bytes "tmtk_a"))
digest-AllBytes = ground arith
