-- ===== src/GoMap.antt =====
-- Go's built-in `map[K]V`, as every component uses it: an association list with one entry to a
-- key. The order of the entries stands for the unspecified order of `range`.
pub mod Laws
use tokmesh_go.Base.{ℕ, ◌≡◌, Option, none, some, List, [], ◌∷◌, length, ite}

abbrev pub GoMap {ℓ} : Type ℓ → Type ℓ → Type ℓ
GoMap K V = List (K × V)

module _ {ℓ} {K V : Type ℓ} (dec : Discrete K) where
  -- `v, ok := m[k]`
  unfoldable pub get : GoMap K V → K → Option V
  get [] k = none
  get ((j, v) ∷ m) k = ite (dec j k) (some v) (get m k)

  -- `m[k] = v`
  unfoldable pub set : GoMap K V → K → V → GoMap K V
  set [] k v = (k, v) ∷ []
  set ((j, w) ∷ m) k v = ite (dec j k) ((k, v) ∷ m) ((j, w) ∷ set m k v)

  -- `delete(m, k)`
  unfoldable pub delete : GoMap K V → K → GoMap K V
  delete [] k = []
  delete ((j, v) ∷ m) k = let rest = delete m k in ite (dec j k) rest ((j, v) ∷ rest)

  -- One entry to a key.
  abbrev pub IsUnique : GoMap K V → Type ℓ
  IsUnique [] = Unit
  IsUnique ((k, v) ∷ m) = (get m k ≡ none) × IsUnique m

-- `len(m)`
abbrev pub len {ℓ} : {K V : Type ℓ} → GoMap K V → ℕ
len m = length m
