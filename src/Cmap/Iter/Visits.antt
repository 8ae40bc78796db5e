-- ===== src/Cmap/Iter/Visits.antt =====
-- What the loops of src/pkg/cmap/iter.go visit.
use tokmesh_go.Base.{
  ℕ, ◌+◌, ◌≡◌, ◌≤◌, ap, sym, ◌∙◌, Bool, true, List, [], ◌∷◌, ◌++◌, map, length, arith,
  length-append,
}
use mathlib.Core.List.{append_assoc, append-nil, map-append, map-id}
use tokmesh_go.GoMap.{GoMap, len}
use tokmesh_go.Cmap.{Map}
use tokmesh_go.Cmap.Iter.{
  range_shard, range_shards, range, keys, values, items, count_from, count, limit_shard,
  limit_shards, range_with_limit, entries,
}

module _ {ℓ} {K V S : Type ℓ} (limit : ℕ) (fn : S → K → V → S × Bool) where
  limit_shard-le :
      (l : GoMap K V) (s : S) (count : ℕ)
      → count ≤ limit
      → (limit_shard limit fn l s count).1 ≤ limit
  unfolding limit_shard
  limit_shard-le [] s count h = h
  limit_shard-le ((k, v) ∷ l) s count h = ground (arith, limit_shard-le l (fn s k v).0 (count + 1))

  limit_shards-le :
      (l : List (GoMap K V)) (s : S) (count : ℕ)
      → count ≤ limit
      → (limit_shards limit fn l s count).1 ≤ limit
  unfolding limit_shards
  limit_shards-le [] s count h = h
  limit_shards-le (x ∷ l) s count h = ground (
    arith,
    limit_shard-le x s count,
    limit_shards-le l (limit_shard limit fn x s count).0 (limit_shard limit fn x s count).1,
  )

  -- `RangeWithLimit` passes at most `limit` entries, whatever the callback does.
  pub range_with_limit-le : (m : Map K V) (s : S) → (range_with_limit limit fn m s).1 ≤ limit
  unfolding range_with_limit
  range_with_limit-le m s = limit_shards-le m.shards s 0 (omega arith)

module _ {ℓ} {K V B : Type ℓ} (f : K → V → B) where
  abbrev pub collect : List B → K → V → List B × Bool
  collect acc k v = (acc ++ f k v ∷ [], true)

  range_shard-collect :
      (l : GoMap K V) (acc : List B)
      → range_shard collect l acc ≡ (acc ++ map (λ e. f e.0 e.1) l, true)
  unfolding range_shard
  range_shard-collect [] acc = rw append-nil
  range_shard-collect ((k, v) ∷ l) acc = rw (range_shard-collect l, append_assoc)

  range_shards-collect :
      (l : List (GoMap K V)) (acc : List B)
      → range_shards collect l acc ≡ (acc ++ map (λ e. f e.0 e.1) (entries l), true)
  unfolding range_shards
  range_shards-collect [] acc = rw append-nil
  range_shards-collect (x ∷ l) acc =
      rw (range_shard-collect x acc, range_shards)
        (range_shards-collect l _ ∙ rw (range_shard-collect x acc, map-append, append_assoc))

  -- A callback that appends and goes on collects the entries in order.
  pub range-collect : (m : Map K V) → range collect m [] ≡ map (λ e. f e.0 e.1) (entries m.shards)
  unfolding range
  range-collect m = ap (λ r. r.0) (range_shards-collect m.shards [])

module _ {ℓ} {K V : Type ℓ} where
  count_from-entries : (n : ℕ) (l : List (GoMap K V)) → count_from n l ≡ n + length (entries l)
  unfolding count_from
  count_from-entries n [] = omega arith
  count_from-entries n (x ∷ l) =
      omega (arith, count_from-entries (n + len x) l, length-append {ℓ} x (entries l))

  pub count-entries : (m : Map K V) → count m ≡ length (entries m.shards)
  unfolding count
  count-entries m = omega (arith, count_from-entries 0 m.shards)

  pub items-entries : (m : Map K V) → items m ≡ entries m.shards
  unfolding items
  items-entries m = range-collect (λ k v. (k, v)) m ∙ map-id (entries m.shards)

  pub keys-items : (m : Map K V) → keys m ≡ map (λ e. e.0) (items m)
  unfolding keys
  keys-items m = range-collect (λ k v. k) m ∙ ap (map (λ e. e.0)) (sym (items-entries m))

  pub values-items : (m : Map K V) → values m ≡ map (λ e. e.1) (items m)
  unfolding values
  values-items m = range-collect (λ k v. v) m ∙ ap (map (λ e. e.1)) (sym (items-entries m))
