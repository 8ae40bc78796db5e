-- ===== src/Cmap/Iter.antt =====
-- Iteration (src/pkg/cmap/iter.go). A callback is a function from the caller's variables, a key and
-- a value to the new variables and the Boolean that says whether to go on.
pub mod Visits
use tokmesh_go.Base.{
  ℕ, zero, suc, ◌+◌, ◌≡◌, ◌≤◌, refl, Bool, true, false, List, [], ◌∷◌, ◌++◌, map, length, leb, ap,
  arith, length-append, if◌then◌else◌, Bool-cases, take, inl, inr,
}
use mathlib.Core.List.{append_assoc, append-nil, map-append}
use tokmesh_go.GoMap.{GoMap, len}
use tokmesh_go.Cmap.{Map}

module _ {ℓ} {K V S : Type ℓ} (fn : S → K → V → S × Bool) where
  -- the inner loop; the Boolean is false after a `return` out of both loops
  unfoldable pub range_shard : GoMap K V → S → S × Bool
  range_shard [] s = (s, true)
  range_shard ((k, v) ∷ items) s = elim (fn s k v).1 [
    | true ↦ range_shard items (fn s k v).0
    | false ↦ ((fn s k v).0, false)
  ]

  unfoldable pub range_shards : List (GoMap K V) → S → S × Bool
  range_shards [] s = (s, true)
  range_shards (shard ∷ shards) s = elim (range_shard shard s).1 [
    | true ↦ range_shards shards (range_shard shard s).0
    | false ↦ ((range_shard shard s).0, false)
  ]

  -- `Range`
  unfoldable pub range : Map K V → S → S
  unfolding range_shards range_shard
  range m s = (range_shards m.shards s).0

module _ {ℓ} {K V : Type ℓ} where
  unfoldable pub keys : Map K V → List K
  unfolding range
  keys m = range (λ acc k v. (acc ++ k ∷ [], true)) m []

  unfoldable pub values : Map K V → List V
  unfolding range
  values m = range (λ acc k v. (acc ++ v ∷ [], true)) m []

  unfoldable pub items : Map K V → List (K × V)
  unfolding range
  items m = range (λ acc k v. (acc ++ (k, v) ∷ [], true)) m []

  count_from : ℕ → List (GoMap K V) → ℕ
  count_from count [] = count
  count_from count (shard ∷ shards) = count_from (count + len shard) shards

  unfoldable pub count : Map K V → ℕ
  unfolding count_from
  count m = count_from 0 m.shards

  unfoldable pub clear : Map K V → Map K V
  clear m = record m { shards = map (λ _. []) m.shards }

  unfoldable pub shard_count : Map K V → ℕ
  shard_count m = length m.shards

  stats_from : ℕ → List (GoMap K V) → List (ℕ × ℕ)
  stats_from i [] = []
  stats_from i (shard ∷ shards) = (i, len shard) ∷ stats_from (suc i) shards

  -- `Stats`: the index and the count of each shard.
  unfoldable pub stats : Map K V → List (ℕ × ℕ)
  unfolding stats_from
  stats m = stats_from 0 m.shards

module _ {ℓ} {K V S : Type ℓ} (limit : ℕ) (fn : S → K → V → S × Bool) where
  -- The variables are the caller's and `count`.
  limit_shard : GoMap K V → S → ℕ → S × ℕ × Bool
  limit_shard [] s count = (s, count, true)
  limit_shard ((k, v) ∷ items) s count = elim (leb limit count) [
    | true ↦ (s, count, false)
    | false ↦ elim (fn s k v).1 [
      | true ↦ limit_shard items (fn s k v).0 (count + 1)
      | false ↦ ((fn s k v).0, count, false)
    ]
  ]

  limit_shards : List (GoMap K V) → S → ℕ → S × ℕ × Bool
  limit_shards [] s count = (s, count, true)
  limit_shards (shard ∷ shards) s count = elim (limit_shard shard s count).2 [
    | true ↦ limit_shards shards (limit_shard shard s count).0 (limit_shard shard s count).1
    | false ↦ limit_shard shard s count
  ]

  -- `RangeWithLimit`: the caller's variables, and the number of entries that were passed.
  unfoldable pub range_with_limit : Map K V → S → S × ℕ
  unfolding limit_shards limit_shard
  range_with_limit m s = let r = limit_shards m.shards s 0 in (r.0, r.1)

module _ {ℓ} {K V : Type ℓ} where
  -- The entries of all shards, in the order of iteration.
  abbrev pub entries : List (GoMap K V) → GoMap K V
  entries [] = []
  entries (shard ∷ shards) = shard ++ entries shards
