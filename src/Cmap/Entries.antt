-- ===== src/Cmap/Entries.antt =====
-- The abstract view: the entries of all shards, which `Items` returns, are one Go map, and a read of
-- the sharded map is a read of it.
use tokmesh_go.Base.{
  ℕ, suc, ◌≡◌, ◌≢◌, ◌<◌, refl, ap, sym, ◌∙◌, Option, none, some, List, [], ◌∷◌, ◌++◌, arith, ite,
  get_or, inl, inr, ◌⊎◌, length, replicate, zero, Option-cases, ℕ_discrete, ◌≤◌, ◌+◌,
}
use tokmesh_go.Base
use tokmesh_go.GoMap
use tokmesh_go.GoMap.{GoMap}
use tokmesh_go.GoMap.Laws as MapLaws
use tokmesh_go.Cmap.{
  Map, IsValid, shard_index, get_shard, put_shard, get, set, delete, new_with_shards, new,
}
use tokmesh_go.Cmap.Laws.{get-set, get-delete}
use tokmesh_go.Cmap.Iter.{entries, items}
use tokmesh_go.Cmap.Iter.Visits.{items-entries}

abbrev or_else {ℓ} : {A : Type ℓ} → Option A → Option A → Option A
or_else none o = o
or_else (some a) o = some a

none_of {ℓ} : {A : Type ℓ} (o : Option A) → ((a : A) → o ≡ some a → ⊥) → o ≡ none
none_of none h = refl
none_of (some a) h = absurd (h a refl)

module _ {ℓ} {K V : Type ℓ} (dec : Discrete K) where
  get-append :
      (x y : GoMap K V) (k : K)
      → GoMap.get dec (x ++ y) k ≡ or_else (GoMap.get dec x k) (GoMap.get dec y k)
  unfolding GoMap.get
  get-append [] y k = refl
  get-append ((j, v) ∷ x) y k = ground (arith, get-append x y k)

  append-IsUnique :
      (x y : GoMap K V)
      → GoMap.IsUnique dec x
      → GoMap.IsUnique dec y
      → ((k : K) → (GoMap.get dec x k ≡ none) ⊎ (GoMap.get dec y k ≡ none))
      → GoMap.IsUnique dec (x ++ y)
  unfolding GoMap.get
  append-IsUnique [] y ux uy apart = uy
  append-IsUnique ((k, v) ∷ x) y ux uy apart = (
    ground (arith, get-append x y k, apart k),
    append-IsUnique x y ux.1 uy (λ j. ground (arith, apart j)),
  )

  module _ (index : K → ℕ) where
    -- From the i-th shard on, each shard holds keys of its own index only, and each at most once.
    abbrev pub PlacedFrom : ℕ → List (GoMap K V) → Type ℓ
    PlacedFrom i [] = Unit
    PlacedFrom i (x ∷ xs) =
        GoMap.IsUnique dec x
        × ((k : K) (v : V) → GoMap.get dec x k ≡ some v → index k ≡ i)
        × PlacedFrom (suc i) xs

    -- No key of a smaller index is in later shards.
    get-entries_below :
        (i : ℕ) (xs : List (GoMap K V)) (k : K)
        → PlacedFrom i xs
        → index k < i
        → GoMap.get dec (entries xs) k ≡ none
    unfolding GoMap.get
    get-entries_below i [] k p h = refl
    get-entries_below i (x ∷ xs) k p h =
        get-append x (entries xs) k
        ∙ ap (λ o. or_else o (GoMap.get dec (entries xs) k))
            (none_of (GoMap.get dec x k) (λ v e. absurd (omega (arith, p.1 k v e))))
        ∙ get-entries_below (suc i) xs k p.2 (omega arith)

    get-entries_at :
        (i n : ℕ) (xs : List (GoMap K V)) (k : K)
        → PlacedFrom i xs
        → index k ≡ n + i
        → GoMap.get dec (entries xs) k ≡ GoMap.get dec (get_or xs n []) k
    get-entries_at i n [] k p h = refl
    get-entries_at i zero (x ∷ xs) k p h =
        get-append x (entries xs) k
        ∙ ground (arith, get-entries_below (suc i) xs k p.2 (omega arith))
    get-entries_at i (suc n) (x ∷ xs) k p h =
        get-append x (entries xs) k
        ∙ ap (λ o. or_else o (GoMap.get dec (entries xs) k))
            (none_of (GoMap.get dec x k) (λ v e. absurd (omega (arith, p.1 k v e))))
        ∙ get-entries_at (suc i) n xs k p.2 (omega arith)

    entries-IsUnique :
        (i : ℕ) (xs : List (GoMap K V)) → PlacedFrom i xs → GoMap.IsUnique dec (entries xs)
    entries-IsUnique i [] p = tt
    entries-IsUnique i (x ∷ xs) p =
        append-IsUnique x (entries xs) p.0 (entries-IsUnique (suc i) xs p.2) λ k.
          elim (Option-cases (GoMap.get dec x k)) [
            | inl e ↦ inl e
            | inr (v, e) ↦ inr (get-entries_below (suc i) xs k p.2 (omega (arith, p.1 k v e)))
          ]

    PlacedFrom-set :
        (i n : ℕ) (xs : List (GoMap K V)) (y : GoMap K V)
        → PlacedFrom i xs
        → GoMap.IsUnique dec y
        → ((k : K) (v : V) → GoMap.get dec y k ≡ some v → index k ≡ n + i)
        → PlacedFrom i (Base.set xs n y)
    PlacedFrom-set i n [] y p u at = tt
    PlacedFrom-set i zero (x ∷ xs) y p u at = (u, (λ k v e. omega (arith, at k v e)), p.2)
    PlacedFrom-set i (suc n) (x ∷ xs) y p u at =
        (p.0, p.1, PlacedFrom-set (suc i) n xs y p.2 u (λ k v e. omega (arith, at k v e)))

    pub get_or-PlacedFrom :
        (i n : ℕ) (xs : List (GoMap K V))
        → PlacedFrom i xs
        → GoMap.IsUnique dec (get_or xs n [])
          × ((k : K) (v : V) → GoMap.get dec (get_or xs n []) k ≡ some v → index k ≡ n + i)
    unfolding GoMap.get
    get_or-PlacedFrom i n [] p = (tt, λ k v e. cc)
    get_or-PlacedFrom i zero (x ∷ xs) p = (p.0, λ k v e. omega (arith, p.1 k v e))
    get_or-PlacedFrom i (suc n) (x ∷ xs) p =
        let (u, at) = get_or-PlacedFrom (suc i) n xs p.2 in (u, λ k v e. omega (arith, at k v e))

  -- Every entry is in the shard of its key's index, and no shard has a key twice.
  abbrev pub IsPlaced : Map K V → Type ℓ
  IsPlaced m = PlacedFrom (shard_index m) 0 m.shards

  module _ (m : Map K V) (placed : IsPlaced m) where
    put_shard-IsPlaced :
        (k : K) (y : GoMap K V)
        → GoMap.IsUnique dec y
        → ((j : K) (v : V)
            → GoMap.get dec y j ≡ some v
            → (j ≡ k) ⊎ (GoMap.get dec (get_shard m k) j ≡ some v))
        → IsPlaced (put_shard m k y)
    unfolding put_shard get_shard
    put_shard-IsPlaced k y u from =
        PlacedFrom-set _ 0 (shard_index m k) m.shards y placed u λ j v e. ground (
          arith,
          from j v e,
          (get_or-PlacedFrom (shard_index m) 0 (shard_index m k) m.shards placed).1 j v,
        )

    get_shard-IsUnique : (k : K) → GoMap.IsUnique dec (get_shard m k)
    unfolding get_shard
    get_shard-IsUnique k = (get_or-PlacedFrom (shard_index m) 0 (shard_index m k) m.shards placed).0

    pub set-IsPlaced : (k : K) (v : V) → IsPlaced (set dec m k v)
    unfolding set
    set-IsPlaced k v =
        put_shard-IsPlaced k _ (MapLaws.set-IsUnique dec _ k v (get_shard-IsUnique k))
          λ j w e. ground (arith, MapLaws.get-set dec (get_shard m k) k v j)

    pub delete-IsPlaced : (k : K) → IsPlaced (delete dec m k)
    unfolding delete
    delete-IsPlaced k =
        put_shard-IsPlaced k _ (MapLaws.delete-IsUnique dec _ k (get_shard-IsUnique k))
          λ j w e. ground (arith, MapLaws.get-delete dec (get_shard m k) k j)

    -- A read of the sharded map is a read of the list that `Items` returns.
    pub get-items : (k : K) → GoMap.get dec (items m) k ≡ get dec m k
    unfolding get get_shard
    get-items k =
        ap (λ l. GoMap.get dec l k) (items-entries m)
        ∙ get-entries_at (shard_index m) 0 (shard_index m k) m.shards k placed (omega arith)

    -- `Items` has no key twice.
    pub items-IsUnique : GoMap.IsUnique dec (items m)
    items-IsUnique = rw items-entries (entries-IsUnique (shard_index m) 0 m.shards placed)

module _ {ℓ} {K : Type ℓ} (V : Type ℓ) (dec : Discrete K) where
  PlacedFrom-replicate :
      (index : K → ℕ) (i n : ℕ) → PlacedFrom dec index i (replicate {A = GoMap K V} n [])
  unfolding GoMap.get
  PlacedFrom-replicate index i zero = tt
  PlacedFrom-replicate index i (suc n) = (tt, (λ k v e. cc), PlacedFrom-replicate index (suc i) n)

  pub new-IsPlaced : (seed : K → ℕ) → IsPlaced dec (new {V = V} seed)
  unfolding new new_with_shards
  new-IsPlaced seed = PlacedFrom-replicate _ 0 16

module _ {ℓ} {K V : Type ℓ} (dec : Discrete K) (m : Map K V) (valid : IsValid m)
    (placed : IsPlaced dec m) where
  -- For a valid map whose entries are in their shards, `Set` is, in what `Items` returns, a write
  -- to one Go map: no key is there twice, and reads are as before but at the key.
  pub items-set :
      (k : K) (v : V)
      → GoMap.IsUnique dec (items (set dec m k v))
        × ((j : K)
            → GoMap.get dec (items (set dec m k v)) j
              ≡ ite (dec k j) (some v) (GoMap.get dec (items m) j))
  items-set k v =
      let after = set-IsPlaced dec m placed k v in
      (
        items-IsUnique dec (set dec m k v) after,
        λ j. cc (
          get-items dec (set dec m k v) after j,
          get-items dec m placed j,
          get-set dec m valid k v j,
        ),
      )

  -- For a valid map whose entries are in their shards, `Delete` is, in what `Items` returns, a
  -- delete from one Go map.
  pub items-delete :
      (k : K)
      → GoMap.IsUnique dec (items (delete dec m k))
        × ((j : K)
            → GoMap.get dec (items (delete dec m k)) j
              ≡ ite (dec k j) none (GoMap.get dec (items m) j))
  items-delete k =
      let after = delete-IsPlaced dec m placed k in
      (
        items-IsUnique dec (delete dec m k) after,
        λ j. cc (
          get-items dec (delete dec m k) after j,
          get-items dec m placed j,
          get-delete dec m valid k j,
        ),
      )
