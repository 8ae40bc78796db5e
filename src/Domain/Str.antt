-- ===== src/Domain/Str.antt =====
-- A Go string is a sequence of bytes, so its length and its slices count bytes.
use Prim.Native.Char.{code}
use Prim.Native.String.{String}
use tokmesh_go.Base.{
  ℕ, Bool, true, false, List, [], ◌∷◌, ℕ_discrete, length, take, refl, dec_lt, ite, length-take-le,
  arith, ◌≤◌,
}

abbrev pub Str : Type 0
Str = List ℕ

unfoldable pub str_dec : Discrete Str
unfolding ℕ_discrete
str_dec [] [] = yes refl
str_dec [] (b ∷ t) = no (λ e. cc)
str_dec (a ∷ s) [] = no (λ e. cc)
str_dec (a ∷ s) (b ∷ t) = elim (ℕ_discrete a b) [
  | yes p ↦ elim (str_dec s t) [ yes q ↦ yes (cc) | no q ↦ no (λ e. q (cc)) ]
  | no p ↦ no (λ e. p (cc))
]

-- `s == ""`
abbrev pub is_empty : Str → Bool
is_empty [] = true
is_empty (a ∷ s) = false

-- `if len(s) > n { s = s[:n] }`
abbrev pub truncate : ℕ → Str → Str
truncate n s = ite (dec_lt n (length s)) (take n s) s

pub length-truncate-le : (n : ℕ) (s : Str) → length (truncate n s) ≤ n
length-truncate-le n s = ground (arith, length-take-le n s)

-- The bytes of an ASCII literal.
abbrev pub bytes : String → Str
bytes String.[] = []
bytes (String.◌∷◌ c s) = code c ∷ bytes s
