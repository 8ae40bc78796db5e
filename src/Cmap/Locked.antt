-- ===== src/Cmap/Locked.antt =====
-- The locks of the shards (src/pkg/cmap/iter.go). `held` are the indices of the shards whose read lock the
-- running goroutine holds. `Range` takes the read lock of a shard around the callbacks on its entries; a
-- write lock waits for all read locks, so that a goroutine which holds one waits for ever.
use tokmesh_go.Base.{
  ℕ, zero, suc, Bool, true, false, Option, none, some, List, [], ◌∷◌, length, get_or, ◌==◌,
  if◌then◌else◌,
}
use tokmesh_go.GoMap.{GoMap}
use tokmesh_go.Cmap.{Map, shard_index, pop}

-- What comes of a piece of code that may lock: it goes on, it returns early, or it waits for ever.
pub data Turn {ℓ} (S : Type ℓ) : Type ℓ where
  goes_on returns : S → Turn S
  waits : Turn S

-- Whether a read lock is held.
unfoldable pub holds_lock : List ℕ → ℕ → Bool
holds_lock [] i = false
holds_lock (j ∷ held) i = let rest = holds_lock held i in if j == i then true else rest

module _ {ℓ} {K V S : Type ℓ} (fn : List ℕ → S → K → V → Turn S) (map_of : S → Map K V) where
  -- the loop over the items of a shard
  unfoldable pub range_items : List ℕ → GoMap K V → S → Turn S
  range_items held [] s = goes_on s
  range_items held ((k, v) ∷ items) s = elim (fn held s k v) [
    | waits ↦ waits
    | returns t ↦ returns t
    | goes_on t ↦ range_items held items t
  ]

  -- the loop over the shards from `i` on, each locked for its own round
  unfoldable pub range_from : List ℕ → (count i : ℕ) → S → Turn S
  range_from held zero i s = goes_on s
  range_from held (suc count) i s =
      elim (range_items (i ∷ held) (get_or (map_of s).shards i []) s) [
        | waits ↦ waits
        | returns t ↦ returns t
        | goes_on t ↦ range_from held count (suc i) t
      ]

  -- `Range`, whose callback may use the map itself
  unfoldable pub range_locked : List ℕ → S → Turn S
  range_locked held s = range_from held (length (map_of s).shards) 0 s

-- `Pop`: `none` means that it waits for ever.
unfoldable pub pop_locked {ℓ} :
    {K V : Type ℓ} → Discrete K → List ℕ → Map K V → K → Option (Map K V × Option V)
pop_locked dec held m key =
    if holds_lock held (shard_index m key) then none else some (pop dec m key)
