-- ===== src/Domain/Token/Mask.antt =====
-- What `MaskToken` shows of a token.
use tokmesh_go.Base.{
  ℕ, suc, ◌+◌, ◌-◌, ◌≡◌, ◌<◌, refl, sym, ◌∙◌, [], ◌∷◌, ◌++◌, ◌||◌, length, arith, if◌then◌else◌,
}
use tokmesh_go.Domain.Str.{Str, bytes}
use tokmesh_go.Domain.Token.{has_prefix, from, mask_token, token_prefix}

from-append : (a t : Str) → from (length a) (a ++ t) ≡ t
unfolding from
from-append [] t = refl
from-append (b ∷ a) t = from-append a t

length-append : (a t : Str) → length (a ++ t) ≡ length a + length t
length-append [] t = omega arith
length-append (b ∷ a) t = ground (arith, length-append a t)

module _ (p0 p1 p2 p3 p4 b0 b1 b2 e0 e1 e2 : ℕ) where
  -- a token by its first eight bytes, what is between, and its last three
  abbrev pub token_of : Str → Str
  token_of a = p0 ∷ p1 ∷ p2 ∷ p3 ∷ p4 ∷ b0 ∷ b1 ∷ b2 ∷ a ++ e0 ∷ e1 ∷ e2 ∷ []

  shown : Str
  shown =
      if has_prefix (p0 ∷ p1 ∷ p2 ∷ p3 ∷ p4 ∷ []) token_prefix
        || has_prefix (p0 ∷ p1 ∷ p2 ∷ p3 ∷ p4 ∷ []) (bytes "tmas_")
      then p0 ∷ p1 ∷ p2 ∷ p3 ∷ p4 ∷ b0 ∷ b1 ∷ b2 ∷ bytes "..." ++ e0 ∷ e1 ∷ e2 ∷ []
      else bytes "***REDACTED***"

  abbrev end : Str
  end = e0 ∷ e1 ∷ e2 ∷ []

  -- the last three bytes of the body
  from-body :
      (a : Str) (n : ℕ) → n ≡ suc (suc (suc (length a))) → from n (b0 ∷ b1 ∷ b2 ∷ a ++ end) ≡ end
  unfolding from
  from-body a n e = rw e (from-append a end)

  last_three : (a : Str) → from (length (from 5 (token_of a)) - 3) (from 5 (token_of a)) ≡ end
  unfolding from
  last_three a =
      from-body a (length (b0 ∷ b1 ∷ b2 ∷ a ++ end) - 3) (ground (arith, length-append a end))

  mask_token-shown : (a : Str) → 0 < length a → mask_token (token_of a) ≡ shown
  unfolding mask_token has_prefix from shown
  mask_token-shown a some_byte = ground (arith, length-append a end, last_three a)

  -- The mask of a token tells nothing of the bytes between its first eight and its last three, not
  -- even how many there are, if there are any.
  pub mask_hides :
      (a c : Str) → 0 < length a → 0 < length c → mask_token (token_of a) ≡ mask_token (token_of c)
  mask_hides a c some_a some_c = mask_token-shown a some_a ∙ sym (mask_token-shown c some_c)
