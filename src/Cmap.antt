-- ===== src/Cmap.antt =====
-- The sharded concurrent map (src/pkg/cmap/sharded.go and iter.go). Each operation holds the lock of
-- one shard, so it is one step on the map; `Range` and `Count` lock shard by shard, and are modelled
-- on a map that no one writes to meanwhile. `seed` is the hash that `maphash.MakeSeed` picks.
pub mod Laws
pub mod Iter
pub mod Locked
pub mod Entries
pub mod Versioned
pub mod Values
mod Tests
use tokmesh_go.Base.{
  ℕ, ◌-◌, ◌+◌, ◌≡◌, ◌<◌, Bool, true, false, ◌||◌, not, Option, none, some, List, [], ◌∷◌, length,
  get_or, replicate, bit_and, leb, ◌==◌, if◌then◌else◌,
}
use tokmesh_go.Base
use tokmesh_go.GoMap
use tokmesh_go.GoMap.{GoMap}

abbrev pub default_shard_count : ℕ
default_shard_count = 16

pub record Map {ℓ} (K V : Type ℓ) : Type ℓ where
  pub shards : List (GoMap K V)
  pub shard_mask : ℕ
  pub seed : K → ℕ

-- `NewWithShards`; a negative count takes the branch of 0.
unfoldable pub new_with_shards {ℓ} : {K V : Type ℓ} → (K → ℕ) → ℕ → Map K V
new_with_shards seed n =
    let count = if leb n 0 || not (bit_and n (n - 1) == 0) then default_shard_count else n in
    record { shards = replicate count []; shard_mask = count - 1; seed = seed }

-- `New`
unfoldable pub new {ℓ} : {K V : Type ℓ} → (K → ℕ) → Map K V
unfolding new_with_shards
new seed = new_with_shards seed default_shard_count

-- The index that `getShard` and `getShardByString` compute.
abbrev pub shard_index {ℓ} : {K V : Type ℓ} → Map K V → K → ℕ
shard_index m key = bit_and (m.seed key) m.shard_mask

-- `getShard`: the shard at the index.
unfoldable pub get_shard {ℓ} : {K V : Type ℓ} → Map K V → K → GoMap K V
get_shard m key = get_or m.shards (shard_index m key) []

-- A write to the items of the key's shard.
unfoldable pub put_shard {ℓ} : {K V : Type ℓ} → Map K V → K → GoMap K V → Map K V
put_shard m key items = record m { shards = Base.set m.shards (shard_index m key) items }

-- The index of a key is in range, for every hash.
pub record IsValid {ℓ} {K V : Type ℓ} (m : Map K V) : Type ℓ where
  pub mask_in_range : m.shard_mask < length m.shards

module _ {ℓ} {K V : Type ℓ} (dec : Discrete K) where
  unfoldable pub get : Map K V → K → Option V
  get m key = GoMap.get dec (get_shard m key) key

  unfoldable pub set : Map K V → K → V → Map K V
  set m key value = put_shard m key (GoMap.set dec (get_shard m key) key value)

  unfoldable pub delete : Map K V → K → Map K V
  delete m key = put_shard m key (GoMap.delete dec (get_shard m key) key)

  unfoldable pub has : Map K V → K → Bool
  has m key = elim (get m key) [ none ↦ false | some v ↦ true ]

  -- the existing value and `true`, or the given one, stored, and `false`
  unfoldable pub get_or_set : Map K V → K → V → Map K V × V × Bool
  get_or_set m key value = elim (GoMap.get dec (get_shard m key) key) [
    | some existing ↦ (m, existing, true)
    | none ↦ (put_shard m key (GoMap.set dec (get_shard m key) key value), value, false)
  ]

  -- The callback has the value, if the key exists.
  unfoldable pub update : Map K V → K → (Option V → V) → Map K V × V
  update m key fn =
      let new_value = fn (GoMap.get dec (get_shard m key) key) in
      (put_shard m key (GoMap.set dec (get_shard m key) key new_value), new_value)

  unfoldable pub set_if_absent : Map K V → K → V → Map K V × Bool
  set_if_absent m key value = elim (GoMap.get dec (get_shard m key) key) [
    | some _ ↦ (m, false)
    | none ↦ (put_shard m key (GoMap.set dec (get_shard m key) key value), true)
  ]

  unfoldable pub set_if_present : Map K V → K → V → Map K V × Bool
  set_if_present m key value = elim (GoMap.get dec (get_shard m key) key) [
    | none ↦ (m, false)
    | some _ ↦ (put_shard m key (GoMap.set dec (get_shard m key) key value), true)
  ]

  unfoldable pub pop : Map K V → K → Map K V × Option V
  pop m key = elim (GoMap.get dec (get_shard m key) key) [
    | none ↦ (m, none)
    | some val ↦ (put_shard m key (GoMap.delete dec (get_shard m key) key), some val)
  ]

  -- The callback has the existing value and `true`, or the given one and `false`.
  unfoldable pub upsert : Map K V → K → V → (V → Bool → V) → Map K V × V
  upsert m key value fn =
      let stored : V = elim (GoMap.get dec (get_shard m key) key) [
        | some existing ↦ fn existing true
        | none ↦ fn value false
      ] in
      (put_shard m key (GoMap.set dec (get_shard m key) key stored), stored)
