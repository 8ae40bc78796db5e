-- ===== src/Cluster/Rebalance/Plan.antt =====
-- Which shards a rebalance moves.
use tokmesh_go.Base.{
  ℕ, zero, suc, ◌+◌, ◌≤◌, ◌≡◌, refl, ◌∙◌, Bool, ◌&&◌, Option, none, some, [], leb, ltb,
  if◌then◌else◌, ite, ℕ_discrete, arith,
}
use tokmesh_go.Domain.Str.{Str, str_dec}
use tokmesh_go.Domain.Session.{Session}
use tokmesh_go.GoMap
use tokmesh_go.GoMap.{GoMap}
use tokmesh_go.GoMap.Laws.{get-set}
use tokmesh_go.Cmap.{Map}
use tokmesh_go.Cluster.ShardMap.{ShardMap, default_shard_count, get_shard}
use tokmesh_go.Cluster.Rebalance.{
  MigrationTarget, planned, plan_from, compute_migrations, Link, Manager, no_migrations,
  in_progress, trigger_rebalance,
}

abbrev target_of : Str → MigrationTarget
target_of n = record { node_id = n; addr = [] }

-- Where a shard goes: to its new owner, if it has one that is not its old one.
abbrev pub moved : (old_owner new_owner : Option Str) → Option MigrationTarget
moved old_owner none = none
moved none (some n) = some (target_of n)
moved (some o) (some n) = ite (str_dec o n) none (some (target_of n))

get-planned :
    (o n : Option Str) (s : ℕ) (m : GoMap ℕ MigrationTarget) (j : ℕ)
    → GoMap.get ℕ_discrete m s ≡ none
    → GoMap.get ℕ_discrete (planned o n s m) j
      ≡ ite (ℕ_discrete s j) (moved o n) (GoMap.get ℕ_discrete m j)
get-planned o none s m j h = ground (arith, h)
get-planned none (some n) s m j h = get-set ℕ_discrete m s (target_of n) j
get-planned (some o) (some n) s m j h = ground (arith, h, get-set ℕ_discrete m s (target_of n) j)

module _ (old_map new_map : ShardMap) where
  abbrev goal : ℕ → Option MigrationTarget
  goal j = moved (get_shard old_map j) (get_shard new_map j)

  get-plan_from :
      (count s : ℕ) (m : GoMap ℕ MigrationTarget) (j : ℕ)
      → ((k : ℕ) → s ≤ k → GoMap.get ℕ_discrete m k ≡ none)
      → GoMap.get ℕ_discrete (plan_from old_map new_map count s m) j
        ≡ (if leb s j && ltb j (s + count) then goal j else GoMap.get ℕ_discrete m j)
  unfolding plan_from
  get-plan_from zero s m j fresh = ground arith
  get-plan_from (suc count) s m j fresh =
      let step = λ (k : ℕ).
        get-planned (get_shard old_map s) (get_shard new_map s) s m k (fresh s (omega arith)) in
      get-plan_from count (s + 1) _ j (λ k p. ground (arith, step k, fresh k (omega arith)))
      ∙ ground (arith, step j)

  -- A shard is migrated exactly if it is one of the 256, the new map gives it an owner, and the old map gives it
  -- none or another; the target is the new owner.
  pub get-compute_migrations :
      (j : ℕ)
      → GoMap.get ℕ_discrete (compute_migrations old_map new_map) j
        ≡ (if ltb j default_shard_count then goal j else none)
  unfolding compute_migrations GoMap.get
  get-compute_migrations j = get-plan_from default_shard_count 0 [] j (λ k p. refl) ∙ ground arith

planned_same : (o : Option Str) (s : ℕ) (m : GoMap ℕ MigrationTarget) → planned o o s m ≡ m
planned_same none s m = refl
planned_same (some n) s m = ground arith

plan_from_same :
    (shards : ShardMap) (count s : ℕ) (m : GoMap ℕ MigrationTarget)
    → plan_from shards shards count s m ≡ m
unfolding plan_from
plan_from_same shards zero s m = refl
plan_from_same shards (suc count) s m =
    plan_from_same shards count (s + 1) _ ∙ planned_same (get_shard shards s) s m

-- `onBecomeLeader` passes the same map twice: such a rebalance moves no shard, and changes nothing.
pub trigger_rebalance_same :
    (link : Link) (accepts : Str → Bool) (now min_ttl : ℕ) (sessions : Map Str Session)
    (rm : Manager) (shards : ShardMap)
    → trigger_rebalance link accepts now min_ttl sessions rm shards shards
      ≡ (rm, if rm.is_running then in_progress else no_migrations)
unfolding trigger_rebalance compute_migrations
trigger_rebalance_same link accepts now min_ttl sessions rm shards =
    ground (arith, plan_from_same shards default_shard_count 0 [])
