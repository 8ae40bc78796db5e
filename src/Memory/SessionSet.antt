-- ===== src/Memory/SessionSet.antt =====
-- `SessionSet` (src/internal/storage/memory/index.go), a `map[string]struct{}` behind a lock.
use tokmesh_go.Base.{
  ℕ, ◌+◌, ◌≤◌, ◌≡◌, refl, Bool, true, false, none, some, List, [], ◌∷◌, map, ite, arith,
}
use tokmesh_go.Domain.Str.{Str, str_dec}
use tokmesh_go.GoMap
use tokmesh_go.GoMap.{GoMap}
use tokmesh_go.GoMap.Laws as MapLaws

abbrev pub Set : Type 0
Set = GoMap Str Unit

-- `NewSessionSet`
abbrev pub empty : Set
empty = []

unfoldable pub add : Set → Str → Set
add s id = GoMap.set str_dec s id tt

unfoldable pub remove : Set → Str → Set
remove s id = GoMap.delete str_dec s id

unfoldable pub contains : Set → Str → Bool
contains s id = elim (GoMap.get str_dec s id) [ none ↦ false | some _ ↦ true ]

abbrev pub len : Set → ℕ
len s = GoMap.len s

unfoldable pub items : Set → List Str
items s = map (λ e. e.0) s

-- Whether a list of IDs has one.
unfoldable pub elem : Str → List Str → Bool
elem id [] = false
elem id (x ∷ l) = ite (str_dec x id) true (elem id l)

pub contains-add :
    (s : Set) (id j : Str) → contains (add s id) j ≡ ite (str_dec id j) true (contains s j)
unfolding contains add
contains-add s id j = ground (arith, MapLaws.get-set str_dec s id tt j)

pub contains-remove :
    (s : Set) (id j : Str) → contains (remove s id) j ≡ ite (str_dec id j) false (contains s j)
unfolding contains remove
contains-remove s id j = ground (arith, MapLaws.get-delete str_dec s id j)

pub contains-empty : (j : Str) → contains empty j ≡ false
unfolding contains GoMap.get
contains-empty j = refl

-- A set of length 0 has no member.
pub contains_of_len-zero : (s : Set) (j : Str) → len s ≡ 0 → contains s j ≡ false
unfolding contains GoMap.get
contains_of_len-zero [] j h = refl
contains_of_len-zero (e ∷ s) j h = absurd (omega arith)

pub elem-items : (s : Set) (j : Str) → elem j (items s) ≡ contains s j
unfolding elem items contains GoMap.get
elem-items [] j = refl
elem-items ((k, v) ∷ s) j = ground (arith, elem-items s j)

pub len-add-le : (s : Set) (id : Str) → len (add s id) ≤ len s + 1
unfolding add GoMap.set
len-add-le [] id = omega arith
len-add-le ((k, v) ∷ s) id = ground (arith, len-add-le s id)

pub len-remove-le : (s : Set) (id : Str) → len (remove s id) ≤ len s
unfolding remove
len-remove-le s id = MapLaws.len-delete-le str_dec s id
