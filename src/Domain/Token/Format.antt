-- ===== src/Domain/Token/Format.antt =====
-- What the hash of a token, its normal form and its mask are.
use tokmesh_go.Base.{
  ℕ, ◌*◌, ◌/◌, ◌%◌, ◌≡◌, ◌<◌, refl, true, List, [], ◌∷◌, length, arith, Bool-cases, inl, inr,
}
use tokmesh_go.Domain.Str.{Str}
use tokmesh_go.Domain.Token.{
  lower, to_lower, is_hex_digit, hex_decodes, nibble, hex_encode, hash_token, has_prefix, from,
  validate_token_hash_format, normalize_token_hash,
}

lower-lower : (b : ℕ) → lower (lower b) ≡ lower b
unfolding lower
lower-lower b = ground arith

to_lower-to_lower : (s : Str) → to_lower (to_lower s) ≡ to_lower s
unfolding to_lower
to_lower-to_lower [] = refl
to_lower-to_lower (b ∷ s) = cc (lower-lower b, to_lower-to_lower s)

-- The normal form of a token hash is its own normal form.
pub normalize-normalize :
    (hash : Str) → normalize_token_hash (normalize_token_hash hash) ≡ normalize_token_hash hash
unfolding normalize_token_hash validate_token_hash_format to_lower
normalize-normalize hash = elim (Bool-cases (validate_token_hash_format (to_lower hash))) [
  | inl e ↦ ground (arith, e, to_lower-to_lower hash)
  | inr e ↦ ground (arith, e)
]

-- Bytes, each below 256.
abbrev pub AllBytes : List ℕ → Type 0
AllBytes [] = Unit
AllBytes (b ∷ s) = (b < 256) × AllBytes s

nibble-lower : (n : ℕ) → n < 16 → lower (nibble n) ≡ nibble n
unfolding lower nibble
nibble-lower n small = ground arith

nibble-is_hex : (n : ℕ) → n < 16 → is_hex_digit (nibble n) ≡ true
unfolding is_hex_digit nibble
nibble-is_hex n small = ground arith

encoded-lower : (s : List ℕ) → AllBytes s → to_lower (hex_encode s) ≡ hex_encode s
unfolding to_lower hex_encode
encoded-lower [] fits = refl
encoded-lower (b ∷ s) fits = cc (
  nibble-lower (b / 16) (omega (arith, fits.0)),
  nibble-lower (b % 16) (omega arith),
  encoded-lower s fits.1,
)

encoded-decodes : (s : List ℕ) → AllBytes s → hex_decodes (hex_encode s) ≡ true
unfolding hex_decodes hex_encode
encoded-decodes [] fits = refl
encoded-decodes (b ∷ s) fits = ground (
  arith,
  nibble-is_hex (b / 16) (omega (arith, fits.0)),
  nibble-is_hex (b % 16) (omega arith),
  encoded-decodes s fits.1,
)

length-hex_encode : (s : List ℕ) → length (hex_encode s) ≡ 2 * length s
unfolding hex_encode
length-hex_encode [] = refl
length-hex_encode (b ∷ s) = ground (arith, length-hex_encode s)

-- If SHA-256 gives 32 bytes for the token, each below 256, the hash of the token is a valid hash
-- in normal form: normalizing gives it back.
pub normalize-hash_token :
    (sha256 : Str → List ℕ) (token : Str)
    → length (sha256 token) ≡ 32
    → AllBytes (sha256 token)
    → normalize_token_hash (hash_token sha256 token) ≡ hash_token sha256 token
unfolding normalize_token_hash validate_token_hash_format hash_token to_lower lower has_prefix from
normalize-hash_token sha256 token size fits = ground (
  arith,
  encoded-lower (sha256 token) fits,
  encoded-decodes (sha256 token) fits,
  length-hex_encode (sha256 token),
  size,
)
