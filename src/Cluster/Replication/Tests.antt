-- ===== src/Cluster/Replication/Tests.antt =====
-- A map that assigns every shard, and the theorem on it.
use tokmesh_go.Base.{ℕ, zero, suc, ◌+◌, ◌≡◌, refl, true, some, [], ◌∷◌, ℕ_discrete}
use tokmesh_go.GoMap
use tokmesh_go.GoMap.{GoMap}
use tokmesh_go.Cluster.ShardMap.{get_shard, get_replicas}
use tokmesh_go.Cluster.Fsm
use tokmesh_go.Cluster.Fsm.{Fsm}
use tokmesh_go.Cluster.Replication.{
  is_under_replicated, count_under_replicated, check_replication_health,
}

abbrev everywhere : {A : Type 0} → A → (count s : ℕ) → GoMap ℕ A
everywhere a zero s = []
everywhere a (suc count) s = (s, a) ∷ everywhere a count (s + 1)

abbrev full : Fsm
full = record {
  shard_map = record {
    shards = everywhere (97 ∷ []) 256 0;
    replicas = everywhere ((98 ∷ []) ∷ []) 256 0;
    version = 512;
    virtual_nodes = [];
    sorted_hashes = [];
  };
  members = some ((97 ∷ [], Fsm.joined (record { node_id = 97 ∷ []; addr = [] })) ∷ []);
}

full_healthy : check_replication_health true 1 full ≡ some 0
unfolding check_replication_health count_under_replicated is_under_replicated get_shard get_replicas
    Fsm.get_members GoMap.get ℕ_discrete
full_healthy = refl
