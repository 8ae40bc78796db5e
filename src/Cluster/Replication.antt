-- ===== src/Cluster/Replication.antt =====
-- The health of the replication (checkReplicationHealth of src/internal/server/clusterserver/server.go):
-- what its summary counts. `none` is a check that is skipped.
mod Tests
use tokmesh_go.Base.{
  ℕ, zero, suc, ◌+◌, ◌≤◌, ◌<◌, ◌≡◌, refl, ◌∙◌, Bool, true, false, not, Option, none, some, length,
  ltb, ◌==◌, if◌then◌else◌, arith, ℕ_discrete, Option-cases, inl, inr,
}
use tokmesh_go.Domain.Str.{Str}
use tokmesh_go.GoMap
use tokmesh_go.Cluster.ShardMap.{ShardMap, default_shard_count, get_shard, get_replicas}
use tokmesh_go.Cluster.Fsm
use tokmesh_go.Cluster.Fsm.{Fsm}

-- Whether the loop counts a shard.
unfoldable pub is_under_replicated : ℕ → ShardMap → ℕ → Bool
is_under_replicated factor m s = elim (get_shard m s) [
  | none ↦ true
  | some owner ↦ ltb (length (get_replicas m s)) factor
]

-- The loop over the shards `s, s + 1, …`, `count` of them.
unfoldable pub count_under_replicated : (factor : ℕ) → ShardMap → (count s : ℕ) → ℕ
count_under_replicated factor m zero s = 0
count_under_replicated factor m (suc count) s =
    (if is_under_replicated factor m s then 1 else 0)
    + count_under_replicated factor m count (s + 1)

unfoldable pub check_replication_health : Bool → ℕ → Fsm → Option ℕ
check_replication_health is_leader factor f =
    if not is_leader
    then none
    else if GoMap.len (Fsm.get_members f) == 0
    then none
    else some (count_under_replicated factor f.shard_map default_shard_count 0)

count_zero :
    (factor : ℕ) (m : ShardMap) (count s k : ℕ)
    → count_under_replicated factor m count s ≡ 0
    → s ≤ k
    → k < s + count
    → is_under_replicated factor m k ≡ false
unfolding count_under_replicated
count_zero factor m zero s k e p q = absurd (omega arith)
count_zero factor m (suc count) s k e p q = elim (ℕ_discrete s k) [
  | yes same ↦ ground (arith, same, e)
  | no other ↦ count_zero factor m count (s + 1) k (ground (arith, e)) (omega arith) (omega arith)
]

-- A check that finds nothing means that every shard has an owner and as many replicas as are configured.
pub healthy_shards :
    (factor : ℕ) (f : Fsm) (s : ℕ)
    → check_replication_health true factor f ≡ some 0
    → s < default_shard_count
    → ((owner : Str) × (get_shard f.shard_map s ≡ some owner))
      × (factor ≤ length (get_replicas f.shard_map s))
unfolding check_replication_health is_under_replicated
healthy_shards factor f s e p =
    let none_counted : count_under_replicated factor f.shard_map default_shard_count 0 ≡ 0 =
      ground (arith, e) in
    let healthy =
      count_zero factor f.shard_map default_shard_count 0 s none_counted (omega arith)
        (omega arith) in
    let (owner, there) = owned healthy in ((owner, there), enough healthy)
  where
    owned :
        is_under_replicated factor f.shard_map s ≡ false
        → (owner : Str) × (get_shard f.shard_map s ≡ some owner)
    owned h = elim (Option-cases (get_shard f.shard_map s)) [
      | inl missing ↦ absurd (ground (arith, missing, h))
      | inr o ↦ o
    ]

    enough :
        is_under_replicated factor f.shard_map s ≡ false
        → factor ≤ length (get_replicas f.shard_map s)
    enough h = ground (arith, h)
