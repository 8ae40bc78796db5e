-- ===== src/Cluster/ShardMap.antt =====
-- `ShardMap` (src/internal/server/clusterserver/shard.go): the owners of the shards, and the consistent
-- hash ring of virtual nodes. The hashes of the package murmur3 are arguments. A method holds the lock
-- and is one step; `Clone` is the value itself.
pub mod Ring
pub mod Owner
pub mod Moves
pub mod Run
pub mod Tests
use tokmesh_go.Base.{
  ℕ, zero, suc, ◌+◌, ◌/◌, ◌%◌, ◌^◌, ◌<◌, Bool, true, false, Option, none, some, List, [], ◌∷◌, ◌++◌,
  map, length, get_or, leb, ltb, ◌==◌, if◌then◌else◌, ite, ℕ_discrete, dec_lt,
}
use tokmesh_go.Domain.Str.{Str, str_dec}
use tokmesh_go.Domain.Strings.{str_leb}
use tokmesh_go.GoMap
use tokmesh_go.GoMap.{GoMap}
use tokmesh_go.Cluster.Sorted.{sort, search_first}

abbrev pub default_shard_count : ℕ
default_shard_count = 256

abbrev pub default_virtual_node_count : ℕ
default_virtual_node_count = 256

pub record ShardMap : Type 0 where
  pub shards : GoMap ℕ Str
  pub replicas : GoMap ℕ (List Str)
  pub version : ℕ
  pub virtual_nodes : GoMap ℕ Str
  pub sorted_hashes : List ℕ

-- `NewShardMap`
unfoldable pub new : ShardMap
new = record { shards = []; replicas = []; version = 0; virtual_nodes = []; sorted_hashes = [] }

-- `m.Version++` on a uint64.
abbrev pub next_version : ℕ → ℕ
next_version v = (v + 1) % 2 ^ 64

unfoldable pub assign_shard : ShardMap → ℕ → Str → List Str → ShardMap
assign_shard m shard_id node_id replicas = record m {
  shards = GoMap.set ℕ_discrete m.shards shard_id node_id;
  replicas =
      if ltb 0 (length replicas)
      then GoMap.set ℕ_discrete m.replicas shard_id replicas
      else m.replicas;
  version = next_version m.version;
}

unfoldable pub get_shard : ShardMap → ℕ → Option Str
get_shard m shard_id = GoMap.get ℕ_discrete m.shards shard_id

unfoldable pub get_replicas : ShardMap → ℕ → List Str
get_replicas m shard_id = elim (GoMap.get ℕ_discrete m.replicas shard_id) [ none ↦ [] | some l ↦ l ]

unfoldable pub get_replication_factor : ShardMap → ℕ → ℕ
get_replication_factor m shard_id = elim (GoMap.get ℕ_discrete m.replicas shard_id) [
  | none ↦ 0
  | some l ↦ length l + 1
]

-- `rebuildSortedHashes`
unfoldable pub rebuild_sorted_hashes : GoMap ℕ Str → List ℕ
rebuild_sorted_hashes nodes = sort (map (λ (e : ℕ × Str). e.0) nodes)

-- `binary.BigEndian.PutUint32`
abbrev pub index_bytes : ℕ → Str
index_bytes i = i / 2 ^ 24 % 256 ∷ i / 2 ^ 16 % 256 ∷ i / 2 ^ 8 % 256 ∷ i % 256 ∷ []

-- The shards that are left when a node goes.
unfoldable pub unassign : Str → GoMap ℕ Str → GoMap ℕ Str
unassign node_id [] = []
unassign node_id ((s, n) ∷ l) =
    let rest = unassign node_id l in ite (str_dec n node_id) rest ((s, n) ∷ rest)

-- A missing key reads as the empty string.
abbrev pub node_at : Option Str → Str
node_at none = []
node_at (some n) = n

-- `sort.Search`, and around the ring.
unfoldable pub get_node_for_hash : ShardMap → ℕ → Option Str
get_node_for_hash m hash =
    if length m.sorted_hashes == 0
    then none
    else let idx =
        search_first (length m.sorted_hashes) (λ i. leb hash (get_or m.sorted_hashes i 0)) in
      let at = if idx == length m.sorted_hashes then 0 else idx in
      some (node_at (GoMap.get ℕ_discrete m.virtual_nodes (get_or m.sorted_hashes at 0)))

-- `murmur3.Sum32` of a key.
unfoldable pub hash_key : (Str → ℕ) → Str → ℕ
hash_key sum32 key = sum32 key % default_shard_count

unfoldable pub get_shard_for_key : (Str → ℕ) → ShardMap → Str → ℕ × Option Str
get_shard_for_key sum32 m key = (hash_key sum32 key, get_shard m (hash_key sum32 key))

module _ (sum64 : Str → ℕ) where
  -- `murmur3.New64` over the node and the index.
  unfoldable pub hash_virtual_node : Str → ℕ → ℕ
  hash_virtual_node node_id i = sum64 (node_id ++ index_bytes i)

  -- The loops over the virtual nodes `i, i + 1, …`, `count` of them.
  unfoldable pub put_virtual_nodes : Str → (count i : ℕ) → GoMap ℕ Str → GoMap ℕ Str
  put_virtual_nodes node_id zero i nodes = nodes
  put_virtual_nodes node_id (suc count) i nodes =
      put_virtual_nodes node_id count (i + 1)
        (GoMap.set ℕ_discrete nodes (hash_virtual_node node_id i) node_id)

  unfoldable pub drop_virtual_nodes : Str → (count i : ℕ) → GoMap ℕ Str → GoMap ℕ Str
  drop_virtual_nodes node_id zero i nodes = nodes
  drop_virtual_nodes node_id (suc count) i nodes =
      drop_virtual_nodes node_id count (i + 1)
        (GoMap.delete ℕ_discrete nodes (hash_virtual_node node_id i))

  unfoldable pub add_node : ShardMap → Str → ShardMap
  add_node m node_id =
      let nodes = put_virtual_nodes node_id default_virtual_node_count 0 m.virtual_nodes in
      record m {
        virtual_nodes = nodes;
        sorted_hashes = rebuild_sorted_hashes nodes;
        version = next_version m.version;
      }

  unfoldable pub remove_node : ShardMap → Str → ShardMap
  remove_node m node_id =
      let nodes = drop_virtual_nodes node_id default_virtual_node_count 0 m.virtual_nodes in
      record m {
        shards = unassign node_id m.shards;
        virtual_nodes = nodes;
        sorted_hashes = rebuild_sorted_hashes nodes;
        version = next_version m.version;
      }

-- The set that `GetAllNodes` and `GetStats` build.
unfoldable pub node_set : GoMap ℕ Str → GoMap Str (Unit {0})
node_set [] = []
node_set ((h, n) ∷ l) = GoMap.set str_dec (node_set l) n tt

-- `sort.Strings`
unfoldable pub insert_str : Str → List Str → List Str
insert_str x [] = x ∷ []
insert_str x (y ∷ l) = if str_leb x y then x ∷ y ∷ l else y ∷ insert_str x l

unfoldable pub sort_strings : List Str → List Str
sort_strings [] = []
sort_strings (x ∷ l) = insert_str x (sort_strings l)

unfoldable pub get_all_nodes : ShardMap → List Str
get_all_nodes m = sort_strings (map (λ (e : Str × Unit {0}). e.0) (node_set m.virtual_nodes))

pub record ShardMapStats : Type 0 where
  pub total_shards : ℕ
  pub assigned_shards : ℕ
  pub total_nodes : ℕ
  pub virtual_node_count : ℕ
  pub version : ℕ

unfoldable pub get_stats : ShardMap → ShardMapStats
get_stats m = record {
  total_shards = default_shard_count;
  assigned_shards = GoMap.len m.shards;
  total_nodes = GoMap.len (node_set m.virtual_nodes);
  virtual_node_count = GoMap.len m.virtual_nodes;
  version = m.version;
}
