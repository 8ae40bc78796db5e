-- ===== src/Redis/Glob.antt =====
-- `matchGlob` of src/internal/server/redisserver/command.go: patterns with `*` for any bytes.
use tokmesh_go.Base.{
  ℕ, ◌-◌, ◌≡◌, refl, Bool, true, false, not, ◌&&◌, ◌||◌, Option, none, some, List, [], ◌∷◌, length,
  take, drop, ◌==◌, if◌then◌else◌,
}
use tokmesh_go.Domain.Str.{Str, is_empty, bytes}
use tokmesh_go.Domain.Strings.{str_eq, has_prefix, has_suffix}

abbrev pub star : ℕ
star = 42

-- `strings.Contains(s, "*")`
unfoldable pub has_star : Str → Bool
has_star [] = false
has_star (b ∷ s) = b == star || has_star s

-- The first part of `strings.Split`, with one more byte.
abbrev pub on_first : ℕ → List Str → List Str
on_first b [] = (b ∷ []) ∷ []
on_first b (p ∷ parts) = (b ∷ p) ∷ parts

-- `strings.Split(s, "*")`
unfoldable pub split_star : Str → List Str
split_star [] = [] ∷ []
split_star (b ∷ s) = let rest = split_star s in if b == star then [] ∷ rest else on_first b rest

-- What is left of `s` behind the first occurrence of `q`, by `strings.Index`.
unfoldable pub after_first : Str → Str → Option Str
after_first q [] = if has_prefix [] q then some [] else none
after_first q (b ∷ s) =
    let rest = after_first q s in
    if has_prefix (b ∷ s) q then some (drop (length q) (b ∷ s)) else rest

-- The middle parts, in order, and the last one as a suffix.
unfoldable pub match_rest : List Str → Str → Bool
match_rest [] s = true
match_rest (p ∷ []) s = if is_empty p then true else has_suffix s p
match_rest (p ∷ q ∷ parts) s = elim (if is_empty p then some s else after_first p s) [
  | none ↦ false
  | some t ↦ match_rest (q ∷ parts) t
]

-- The first part is a prefix.
unfoldable pub match_parts : List Str → Str → Bool
match_parts [] s = true
match_parts (p ∷ parts) s =
    if not (is_empty p) && not (has_prefix s p) then false else match_rest parts (drop (length p) s)

unfoldable pub match_glob : Str → Str → Bool
match_glob pattern s =
    let prefix = take (length pattern - 1) pattern in
    if str_eq pattern (star ∷ [])
    then true
    else if is_empty pattern
    then is_empty s
    else if not (has_star pattern)
    then str_eq pattern s
    else if has_suffix pattern (star ∷ []) && not (has_star prefix)
    then has_prefix s prefix
    else if has_prefix pattern (star ∷ []) && not (has_star (drop 1 pattern))
    then has_suffix s (drop 1 pattern)
    else match_parts (split_star pattern) s

examples :
    (match_glob (bytes "tmss-*") (bytes "tmss-abc") ≡ true)
    × (match_glob (bytes "*-user1") (bytes "tmss-user1") ≡ true)
    × (match_glob (bytes "tmss-*-device") (bytes "tmss-abc-device") ≡ true)
    × (match_glob (bytes "a*b*a") (bytes "aba") ≡ true)
    × (match_glob (bytes "a*ba*a") (bytes "aba") ≡ false)
unfolding match_glob match_parts match_rest after_first split_star has_star str_eq has_prefix
    has_suffix
examples = (refl, refl, refl, refl, refl)
