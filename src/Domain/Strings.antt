-- ===== src/Domain/Strings.antt =====
-- What the sources use of Go's package strings, on bytes.
use tokmesh_go.Base.{
  ℕ, zero, suc, ◌+◌, ◌-◌, ◌/◌, ◌%◌, Bool, true, false, ◌&&◌, [], ◌∷◌, ◌++◌, ltb, ◌==◌, length, drop,
  replicate, if◌then◌else◌, ◌≡◌, refl, ap, ◌∙◌, arith, length-append, drop-append_length,
}
use tokmesh_go.Domain.Str.{Str}

-- `s == t`
unfoldable pub str_eq : Str → Str → Bool
str_eq [] [] = true
str_eq [] (b ∷ t) = false
str_eq (a ∷ s) [] = false
str_eq (a ∷ s) (b ∷ t) = a == b && str_eq s t

-- `strings.HasPrefix(s, p)`
unfoldable pub has_prefix : Str → Str → Bool
has_prefix s [] = true
has_prefix [] (b ∷ p) = false
has_prefix (a ∷ s) (b ∷ p) = a == b && has_prefix s p

-- `strings.HasSuffix(s, p)`
unfoldable pub has_suffix : Str → Str → Bool
unfolding str_eq
has_suffix s p =
    if ltb (length s) (length p) then false else str_eq (drop (length s - length p) s) p

-- Go's order of strings.
unfoldable pub str_leb : Str → Str → Bool
str_leb [] t = true
str_leb (a ∷ s) [] = false
str_leb (a ∷ s) (b ∷ t) =
    let rest = str_leb s t in if ltb a b then true else if a == b then rest else false

-- The decimal digits of a number; as many rounds as the number are enough.
unfoldable pub decimal : (fuel n : ℕ) → Str
decimal zero n = (48 + n) ∷ []
decimal (suc fuel) n =
    let rest = decimal fuel (n / 10) in
    if ltb n 10 then (48 + n) ∷ [] else rest ++ (48 + n % 10) ∷ []

-- `%04d`
unfoldable pub pad_decimal : ℕ → Str
unfolding decimal
pad_decimal n = let d = decimal n n in replicate (4 - length d) 48 ++ d

pub str_eq_refl : (s : Str) → str_eq s s ≡ true
unfolding str_eq
str_eq_refl [] = refl
str_eq_refl (a ∷ s) = ground (arith, str_eq_refl s)

pub has_prefix-append : (p s : Str) → has_prefix (p ++ s) p ≡ true
unfolding has_prefix
has_prefix-append [] s = refl
has_prefix-append (a ∷ p) s = ground (arith, has_prefix-append p s)

pub has_suffix-append : (s p : Str) → has_suffix (s ++ p) p ≡ true
unfolding has_suffix
has_suffix-append s p =
    let size = length-append s p in
    let cut : length (s ++ p) - length p ≡ length s = omega (arith, size) in
    let rest : drop (length (s ++ p) - length p) (s ++ p) ≡ p =
      ap (λ n. drop n (s ++ p)) cut ∙ drop-append_length s p in
    ground (arith, size, rest, str_eq_refl p)
