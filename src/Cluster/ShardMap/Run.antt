-- ===== src/Cluster/ShardMap/Run.antt =====
-- The invariant over any calls of the methods that change a shard map.
use tokmesh_go.Base.{ℕ, List, [], ◌∷◌, refl}
use tokmesh_go.Domain.Str.{Str}
use tokmesh_go.GoMap
use tokmesh_go.Cluster.Sorted.{elem}
use tokmesh_go.Cluster.ShardMap.{ShardMap, new, assign_shard, add_node, remove_node}
use tokmesh_go.Cluster.ShardMap.Ring.{IsRing}
use tokmesh_go.Cluster.ShardMap.Moves.{add_node-IsRing, remove_node-IsRing}

pub data Op : Type 0 where
  assign : ℕ → Str → List Str → Op
  join leave : Str → Op

module _ (sum64 : Str → ℕ) where
  abbrev pub step : ShardMap → Op → ShardMap
  step m (assign shard_id node_id replicas) = assign_shard m shard_id node_id replicas
  step m (join node_id) = add_node sum64 m node_id
  step m (leave node_id) = remove_node sum64 m node_id

  abbrev pub run : ShardMap → List Op → ShardMap
  run m [] = m
  run m (op ∷ ops) = run (step m op) ops

  pub new-IsRing : IsRing sum64 new
  unfolding new GoMap.get elem
  new-IsRing = record {
    sorted = tt;
    hashes = λ v. refl;
    size = refl;
    unique = tt;
    origin = λ v n e. absurd (cc);
  }

  pub assign_shard-IsRing :
      (m : ShardMap) (shard_id : ℕ) (node_id : Str) (replicas : List Str)
      → IsRing sum64 m
      → IsRing sum64 (assign_shard m shard_id node_id replicas)
  unfolding assign_shard
  assign_shard-IsRing m shard_id node_id replicas r = record {
    sorted = r.sorted;
    hashes = r.hashes;
    size = r.size;
    unique = r.unique;
    origin = r.origin;
  }

  step-IsRing : (m : ShardMap) (op : Op) → IsRing sum64 m → IsRing sum64 (step m op)
  step-IsRing m (assign s n l) r = assign_shard-IsRing m s n l r
  step-IsRing m (join n) r = add_node-IsRing sum64 m r n
  step-IsRing m (leave n) r = remove_node-IsRing sum64 m r n

  run-IsRing : (m : ShardMap) (ops : List Op) → IsRing sum64 m → IsRing sum64 (run m ops)
  run-IsRing m [] r = r
  run-IsRing m (op ∷ ops) r = run-IsRing (step m op) ops (step-IsRing m op r)

  -- After any sequence of `AssignShard`, `AddNode` and `RemoveNode` on a new shard map, the sorted
  -- hashes are sorted and are exactly the hashes of the virtual nodes, as many as they are, no
  -- hash is there twice, and each virtual node is at one of the 256 hashes of its node.
  pub shard_map_run-IsRing : (ops : List Op) → IsRing sum64 (run new ops)
  shard_map_run-IsRing ops = run-IsRing new ops new-IsRing
