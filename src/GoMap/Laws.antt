-- ===== src/GoMap/Laws.antt =====
-- The laws of a map: reads after writes, and its size.
use tokmesh_go.Base.{◌+◌, ◌≡◌, refl, none, some, [], ◌∷◌, arith, ite, ◌≤◌}
use tokmesh_go.GoMap.{GoMap, get, set, delete, len, IsUnique}

module _ {ℓ} {K V : Type ℓ} (dec : Discrete K) where
  pub get-set :
      (m : GoMap K V) (k : K) (v : V) (j : K)
      → get dec (set dec m k v) j ≡ ite (dec k j) (some v) (get dec m j)
  unfolding get set
  get-set [] k v j = refl
  get-set ((i, w) ∷ m) k v j = ground (arith, get-set m k v j)

  pub get-delete :
      (m : GoMap K V) (k j : K) → get dec (delete dec m k) j ≡ ite (dec k j) none (get dec m j)
  unfolding get delete
  get-delete [] k j = ground arith
  get-delete ((i, w) ∷ m) k j = ground (arith, get-delete m k j)

  pub set-IsUnique : (m : GoMap K V) (k : K) (v : V) → IsUnique dec m → IsUnique dec (set dec m k v)
  unfolding get set
  set-IsUnique [] k v u = (refl, tt)
  set-IsUnique ((i, w) ∷ m) k v u = ground (arith, get-set m k v i, set-IsUnique m k v u.1)

  pub delete-IsUnique : (m : GoMap K V) (k : K) → IsUnique dec m → IsUnique dec (delete dec m k)
  unfolding get delete
  delete-IsUnique [] k u = tt
  delete-IsUnique ((i, w) ∷ m) k u = ground (arith, get-delete m k i, delete-IsUnique m k u.1)

  pub delete_absent : (m : GoMap K V) (k : K) → get dec m k ≡ none → delete dec m k ≡ m
  unfolding get delete
  delete_absent [] k h = refl
  delete_absent ((i, w) ∷ m) k h = ground (arith, delete_absent m k)

  pub len-set_new :
      (m : GoMap K V) (k : K) (v : V) → get dec m k ≡ none → len (set dec m k v) ≡ len m + 1
  unfolding get set
  len-set_new [] k v h = refl
  len-set_new ((i, w) ∷ m) k v h = ground (arith, len-set_new m k v)

  pub len-set_old :
      (m : GoMap K V) (k : K) (v w : V) → get dec m k ≡ some w → len (set dec m k v) ≡ len m
  unfolding get set
  len-set_old [] k v w h = cc
  len-set_old ((i, u) ∷ m) k v w h = ground (arith, len-set_old m k v w)

  pub len-delete :
      (m : GoMap K V) (k : K) (w : V)
      → IsUnique dec m
      → get dec m k ≡ some w
      → len (delete dec m k) + 1 ≡ len m
  unfolding get delete
  len-delete [] k w u h = cc
  len-delete ((i, v) ∷ m) k w u h = ground (arith, len-delete m k w u.1, delete_absent m k)

  pub len-delete-le : (m : GoMap K V) (k : K) → len (delete dec m k) ≤ len m
  unfolding delete
  len-delete-le [] k = omega arith
  len-delete-le ((i, v) ∷ m) k = ground (arith, len-delete-le m k)
