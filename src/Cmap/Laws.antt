-- ===== src/Cmap/Laws.antt =====
-- Reads after writes, over shards that stay shut to the clients.
use tokmesh_go.Base.{
  ℕ, ◌≡◌, Option, none, some, [], arith, ite, if_neg, ap, sym, ◌∙◌, ◌<◌, get_or, length, true,
  false, length-set, ℕ_discrete, get_or-set_self, get_or-set_ne, length-replicate, get_or-replicate,
  ◌≢◌,
}
use tokmesh_go.Base.Bits.{bit_and-le}
use tokmesh_go.GoMap
use tokmesh_go.GoMap.{GoMap}
use tokmesh_go.GoMap.Laws as MapLaws
use tokmesh_go.Cmap.{
  Map, IsValid, new_with_shards, new, shard_index, get_shard, put_shard, get, set, delete, has,
  get_or_set, pop,
}

module _ {ℓ} {K V : Type ℓ} where
  -- A map of a positive number of shards indexes within them, whatever the hash.
  pub new_with_shards-IsValid : (seed : K → ℕ) (n : ℕ) → IsValid {V = V} (new_with_shards seed n)
  unfolding new_with_shards
  new_with_shards-IsValid seed n = record {
    mask_in_range =
        ground
          (arith, length-replicate {A = GoMap K V} 16 [], length-replicate {A = GoMap K V} n []);
  }

  pub new-IsValid : (seed : K → ℕ) → IsValid {V = V} (new seed)
  unfolding new
  new-IsValid seed = record { mask_in_range = omega arith }

  -- On a valid map, the shard index of a key is within the shards, whatever the hash.
  pub shard_index-lt : (m : Map K V) (k : K) → IsValid m → shard_index m k < length m.shards
  shard_index-lt m k h = omega (arith, bit_and-le (m.seed k) m.shard_mask)

  pub put_shard-IsValid :
      (m : Map K V) (k : K) (items : GoMap K V) → IsValid m → IsValid (put_shard m k items)
  unfolding put_shard
  put_shard-IsValid m k items h = record {
    mask_in_range = omega (arith, length-set {ℓ} m.shards (shard_index m k) items);
  }

  get_shard-put_shard_same :
      (m : Map K V) (k j : K) (items : GoMap K V)
      → IsValid m
      → shard_index m k ≡ shard_index m j
      → get_shard (put_shard m k items) j ≡ items
  unfolding get_shard put_shard
  get_shard-put_shard_same m k j items h e =
      rw (← e) (get_or-set_self m.shards (shard_index m k) items [] (shard_index-lt m k h))

  get_shard-put_shard_other :
      (m : Map K V) (k j : K) (items : GoMap K V)
      → shard_index m k ≢ shard_index m j
      → get_shard (put_shard m k items) j ≡ get_shard m j
  unfolding get_shard put_shard
  get_shard-put_shard_other m k j items e =
      get_or-set_ne m.shards (shard_index m k) (shard_index m j) items [] e

  get_shard_eq :
      (m : Map K V) (k j : K) → shard_index m k ≡ shard_index m j → get_shard m k ≡ get_shard m j
  unfolding get_shard
  get_shard_eq m k j e = ap (λ i. get_or m.shards i []) e

ite_absorb {ℓ κ} : {P : Type ℓ} {A : Type κ} (d : Dec P) (a b : A) → ¬ P → ite d a b ≡ b
ite_absorb d a b h = if_neg d h a b

module _ {ℓ} {K V : Type ℓ} (dec : Discrete K) where
  get-new_with_shards :
      (seed : K → ℕ) (n : ℕ) (k : K) → get {V = V} dec (new_with_shards seed n) k ≡ none
  unfolding get get_shard new_with_shards GoMap.get
  get-new_with_shards seed n k = simp (get_or-replicate)

  pub get-new : (seed : K → ℕ) (k : K) → get {V = V} dec (new seed) k ≡ none
  unfolding new
  get-new seed k = get-new_with_shards seed 16 k

  module _ (m : Map K V) (valid : IsValid m) (k : K) where
    -- A read after a write of the key's shard that changes the entry of that key alone.
    get-put_shard :
        (items : GoMap K V) (o : Option V)
        → ((j : K) → GoMap.get dec items j ≡ ite (dec k j) o (GoMap.get dec (get_shard m k) j))
        → (j : K) → get dec (put_shard m k items) j ≡ ite (dec k j) o (get dec m j)
    unfolding get
    get-put_shard items o h j = elim (ℕ_discrete (shard_index m k) (shard_index m j)) [
      | yes e ↦
          ap (λ l. GoMap.get dec l j) (get_shard-put_shard_same m k j items valid e)
          ∙ h j
          ∙ ap (λ l. ite (dec k j) o (GoMap.get dec l j)) (get_shard_eq m k j e)
      | no e ↦
          ap (λ l. GoMap.get dec l j) (get_shard-put_shard_other m k j items e)
          ∙ sym (ite_absorb (dec k j) o _ (λ p. e (ap (shard_index m) p)))
    ]

    pub get-set : (v : V) (j : K) → get dec (set dec m k v) j ≡ ite (dec k j) (some v) (get dec m j)
    unfolding set
    get-set v = get-put_shard _ (some v) (MapLaws.get-set dec (get_shard m k) k v)

    pub get-delete : (j : K) → get dec (delete dec m k) j ≡ ite (dec k j) none (get dec m j)
    unfolding delete
    get-delete = get-put_shard _ none (MapLaws.get-delete dec (get_shard m k) k)

    pub set-IsValid : (v : V) → IsValid (set dec m k v)
    unfolding set
    set-IsValid v = put_shard-IsValid m k _ valid

    pub delete-IsValid : IsValid (delete dec m k)
    unfolding delete
    delete-IsValid = put_shard-IsValid m k _ valid

    -- `Pop` is `Get` and, if the key was there, `Delete`.
    pub pop_lem : (pop dec m k).1 ≡ get dec m k
    unfolding pop get
    pop_lem = ground arith

    pub get-pop : (j : K) → get dec (pop dec m k).0 j ≡ ite (dec k j) none (get dec m j)
    unfolding pop get delete
    get-pop j = ground (arith, get-delete j)

    pub pop-IsValid : IsValid (pop dec m k).0
    unfolding pop delete
    pop-IsValid = ground (arith, delete-IsValid)

    pub get-get_or_set :
        (v : V) (j : K)
        → get dec (get_or_set dec m k v).0 j ≡ (elim (get dec m k) [
          | none ↦ ite (dec k j) (some v) (get dec m j)
          | some w ↦ get dec m j
        ])
    unfolding get_or_set get set
    get-get_or_set v j = ground (arith, get-set v j)

    pub has-true : {v : V} → get dec m k ≡ some v → has dec m k ≡ true
    unfolding has
    has-true h = rw (h, has)

    pub has-false : get dec m k ≡ none → has dec m k ≡ false
    unfolding has
    has-false h = rw (h, has)

    pub get_or_set_value :
        (v : V) → (get_or_set dec m k v).1 ≡ (elim (get dec m k) [ none ↦ v | some w ↦ w ])
    unfolding get_or_set get
    get_or_set_value v = ground arith

    pub get_or_set-IsValid : (v : V) → IsValid (get_or_set dec m k v).0
    unfolding get_or_set set
    get_or_set-IsValid v = ground (arith, set-IsValid v)

    pub pop_absent : get dec m k ≡ none → (pop dec m k).0 ≡ m
    unfolding pop get
    pop_absent h = ground arith

    pub pop-delete : (v : V) → get dec m k ≡ some v → (pop dec m k).0 ≡ delete dec m k
    unfolding pop get delete
    pop-delete v h = ground arith
