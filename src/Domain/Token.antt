-- ===== src/Domain/Token.antt =====
-- The formats of tokens and of their hashes (src/internal/core/domain/token.go). SHA-256 is an
-- argument, `sha256`. Strings are taken to be ASCII where they are put into lower case.
pub mod Format
pub mod Mask
mod Tests
use tokmesh_go.Base.{
  ℕ, zero, suc, ◌+◌, ◌-◌, ◌/◌, ◌%◌, Bool, true, false, not, ◌&&◌, ◌||◌, List, [], ◌∷◌, ◌++◌, map,
  leb, ltb, ◌==◌, length, take, if◌then◌else◌,
}
use tokmesh_go.Domain.Str.{Str, bytes}

abbrev pub token_prefix : Str
token_prefix = bytes "tmtk_"

abbrev pub token_hash_prefix : Str
token_hash_prefix = bytes "tmth_"

abbrev pub token_body_length : ℕ
token_body_length = 43

abbrev pub token_length : ℕ
token_length = 5 + token_body_length

abbrev pub token_hash_length : ℕ
token_hash_length = 5 + 64

-- `strings.HasPrefix(s, prefix)`
unfoldable pub has_prefix : Str → Str → Bool
has_prefix s [] = true
has_prefix [] (b ∷ prefix) = false
has_prefix (a ∷ s) (b ∷ prefix) = let rest = has_prefix s prefix in a == b && rest

-- `s[n:]`
unfoldable pub from : ℕ → Str → Str
from zero s = s
from (suc n) [] = []
from (suc n) (a ∷ s) = from n s

-- `strings.ToLower` on ASCII
unfoldable pub lower : ℕ → ℕ
lower b = if leb 65 b && leb b 90 then b + 32 else b

unfoldable pub to_lower : Str → Str
to_lower [] = []
to_lower (b ∷ s) = lower b ∷ to_lower s

-- a digit that `hex.DecodeString` takes
unfoldable pub is_hex_digit : ℕ → Bool
is_hex_digit b = (leb 48 b && leb b 57) || (leb 97 b && leb b 102) || (leb 65 b && leb b 70)

-- whether `hex.DecodeString` returns no error: an even number of digits
unfoldable pub hex_decodes : Str → Bool
hex_decodes [] = true
hex_decodes (a ∷ []) = false
hex_decodes (a ∷ b ∷ s) = let rest = hex_decodes s in is_hex_digit a && is_hex_digit b && rest

-- `hex.EncodeToString`
unfoldable pub nibble : ℕ → ℕ
nibble n = if ltb n 10 then 48 + n else 87 + n

unfoldable pub hex_encode : List ℕ → Str
hex_encode [] = []
hex_encode (b ∷ s) = nibble (b / 16) ∷ nibble (b % 16) ∷ hex_encode s

-- `HashToken`
unfoldable pub hash_token : (Str → List ℕ) → Str → Str
hash_token sha256 plaintext = token_hash_prefix ++ hex_encode (sha256 plaintext)

-- a byte of the alphabet of `base64.RawURLEncoding`
unfoldable pub is_url_char : ℕ → Bool
is_url_char b =
    (leb 65 b && leb b 90)
    || (leb 97 b && leb b 122)
    || (leb 48 b && leb b 57)
    || (b == 45)
    || (b == 95)

-- whether `base64.RawURLEncoding.DecodeString` returns no error, after `n` digits: it skips line
-- breaks, and a last group of one digit is too short
unfoldable pub url_decodes : ℕ → Str → Bool
url_decodes n [] = not (n % 4 == 1)
url_decodes n (b ∷ s) =
    let skipped = url_decodes n s in
    let rest = url_decodes (n + 1) s in
    if (b == 10) || (b == 13) then skipped else is_url_char b && rest

unfoldable pub validate_token_format : Str → Bool
validate_token_format token =
    if not (length token == token_length)
    then false
    else if not (has_prefix token token_prefix)
    then false
    else if not (length (from 5 token) == token_body_length)
    then false
    else url_decodes 0 (from 5 token)

unfoldable pub validate_token_hash_format : Str → Bool
validate_token_hash_format hash =
    if not (length hash == token_hash_length)
    then false
    else if not (has_prefix (to_lower hash) token_hash_prefix)
    then false
    else hex_decodes (from 5 hash)

unfoldable pub normalize_token_hash : Str → Str
normalize_token_hash hash =
    if not (validate_token_hash_format (to_lower hash)) then [] else to_lower hash

unfoldable pub extract_token_body : Str → Str
extract_token_body token = if not (has_prefix token token_prefix) then [] else from 5 token

unfoldable pub extract_hash_body : Str → Str
extract_hash_body hash = if not (has_prefix hash token_hash_prefix) then [] else from 5 hash

unfoldable pub mask_token : Str → Str
mask_token token =
    if ltb (length token) 10
    then bytes "***REDACTED***"
    else if has_prefix token token_prefix || has_prefix token (bytes "tmas_")
    then (if ltb 6 (length (from 5 token))
        then take 5 token
          ++ take 3 (from 5 token)
          ++ bytes "..."
          ++ from (length (from 5 token) - 3) (from 5 token)
        else take 5 token ++ bytes "***")
    else bytes "***REDACTED***"
