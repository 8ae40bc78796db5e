-- ===== src/Cluster/Rebalance.antt =====
-- The migration of shards (src/internal/server/clusterserver/rebalance.go). The sessions are those that
-- the scan of the storage visits. What the target and the limiter answer, and the JSON of a session, are
-- arguments. The migrations of one rebalance, which the code runs at once, run one after the other.
pub mod Plan
pub mod Transfer
mod Tests
use tokmesh_go.Base.{
  ℕ, zero, suc, ◌+◌, ◌<◌, Bool, true, false, not, Option, none, some, List, [], ◌∷◌, ◌++◌, length,
  ltb, ◌==◌, if◌then◌else◌, ite, ℕ_discrete,
}
use tokmesh_go.Domain.Str.{Str, str_dec}
use tokmesh_go.Domain.Session.{Session, is_expired}
use tokmesh_go.GoMap
use tokmesh_go.GoMap.{GoMap}
use tokmesh_go.Cmap.{Map}
use tokmesh_go.Cmap.Iter.{values}
use tokmesh_go.Cluster.Cleanup.{Cleanup, cleaned, blocked, cleanup_shard_data}
use tokmesh_go.Cluster.ShardMap.{ShardMap, default_shard_count, get_shard}

pub data TaskStatus : Type 0 where
  pending running completed failed : TaskStatus

pub record TaskProgress : Type 0 where
  pub total_items : ℕ
  pub transferred_items : ℕ
  pub bytes_transferred : ℕ
  pub skipped_expired : ℕ

pub record TransferTask : Type 0 where
  pub shard_id : ℕ
  pub target_node : Str
  pub target_addr : Str
  pub status : TaskStatus
  pub progress : TaskProgress

pub record MigrationTarget : Type 0 where
  pub node_id : Str
  pub addr : Str

abbrev pub Tasks : Type 0
Tasks = GoMap ℕ TransferTask

-- One round of `computeMigrations`. The address is left empty.
abbrev pub planned :
    (old_owner new_owner : Option Str) → ℕ → GoMap ℕ MigrationTarget → GoMap ℕ MigrationTarget
planned old_owner none s m = m
planned none (some n) s m = GoMap.set ℕ_discrete m s (record { node_id = n; addr = [] })
planned (some o) (some n) s m =
    ite (str_dec o n) m (GoMap.set ℕ_discrete m s (record { node_id = n; addr = [] }))

-- The loop over the shards `s, s + 1, …`, `count` of them.
unfoldable pub plan_from :
    ShardMap → ShardMap → (count s : ℕ) → GoMap ℕ MigrationTarget → GoMap ℕ MigrationTarget
plan_from old_map new_map zero s m = m
plan_from old_map new_map (suc count) s m =
    plan_from old_map new_map count (s + 1)
      (planned (get_shard old_map s) (get_shard new_map s) s m)

unfoldable pub compute_migrations : ShardMap → ShardMap → GoMap ℕ MigrationTarget
compute_migrations old_map new_map = plan_from old_map new_map default_shard_count 0 []

-- What one migration meets: the factory of clients, the limiter, the stream and its close.
pub record Link : Type 0 where
  pub connects : Str → Bool
  pub marshal : Session → Option (List ℕ)
  pub wait : Session → Bool
  pub send : Session → Bool
  pub close : Option Bool

pub record Progress : Type 0 where
  pub transferred : ℕ
  pub skipped : ℕ
  pub total_bytes : ℕ
  pub sent : List Session

pub data Visit : Type 0 where
  continue stop : Progress → Visit

module _ (link : Link) (now min_ttl shard_id : ℕ) where
  -- The callback of the scan; a session whose JSON fails is left out, uncounted.
  abbrev pub transmit : Progress → Session → Option (List ℕ) → Visit
  transmit p x none = continue p
  transmit p x (some b) =
      if not (link.wait x)
      then stop p
      else if not (link.send x)
      then stop p
      else continue (record {
        transferred = p.transferred + 1;
        skipped = p.skipped;
        total_bytes = p.total_bytes + length b;
        sent = p.sent ++ x ∷ [];
      })

  -- `ExpiresAt - now < minTTL`, on signed numbers
  unfoldable pub visit : Progress → Session → Visit
  visit p x =
      if not (x.shard_id == shard_id)
      then continue p
      else if is_expired now x
      then continue (record p { skipped = p.skipped + 1 })
      else if ltb x.expires_at (now + min_ttl)
      then continue (record p { skipped = p.skipped + 1 })
      else transmit p x (link.marshal x)

  unfoldable pub stream_sessions : Progress → List Session → Progress
  stream_sessions p [] = p
  stream_sessions p (x ∷ l) = elim (visit p x) [ stop q ↦ q | continue q ↦ stream_sessions q l ]

pub data Migration : Type 0 where
  task_not_found client_failed stream_failed target_failed : Migration
  migrated : Cleanup → Migration

abbrev pub set_status : Tasks → ℕ → TransferTask → TaskStatus → Tasks
set_status tasks shard_id t s = GoMap.set ℕ_discrete tasks shard_id (record t { status = s })

-- What the task shows in the end.
abbrev pub completed_task : TransferTask → Progress → TransferTask
completed_task t p = record t {
  status = completed;
  progress = record {
    total_items = p.transferred + p.skipped;
    transferred_items = p.transferred;
    bytes_transferred = p.total_bytes;
    skipped_expired = p.skipped;
  };
}

abbrev pub no_progress : Progress
no_progress = record { transferred = 0; skipped = 0; total_bytes = 0; sent = [] }

-- The tasks of a plan.
unfoldable pub create_tasks : GoMap ℕ MigrationTarget → Tasks → Tasks
create_tasks [] tasks = tasks
create_tasks ((s, target) ∷ l) tasks = create_tasks l (
    GoMap.set ℕ_discrete tasks s (record {
      shard_id = s;
      target_node = target.node_id;
      target_addr = target.addr;
      status = pending;
      progress = record {
        total_items = 0;
        transferred_items = 0;
        bytes_transferred = 0;
        skipped_expired = 0;
      };
    }))

-- Whether a migration comes to an end.
abbrev pub ends : Migration → Bool
ends (migrated blocked) = false
ends (migrated (cleaned sessions last_err)) = true
ends task_not_found = true
ends client_failed = true
ends stream_failed = true
ends target_failed = true

-- The sessions that a migration leaves.
abbrev pub sessions_after : Map Str Session → Migration → Map Str Session
sessions_after sessions (migrated (cleaned rest last_err)) = rest
sessions_after sessions _ = sessions

module _ (link : Link) (accepts : Str → Bool) (now min_ttl : ℕ) (sessions : Map Str Session) where
  -- The close of the stream, and what follows it.
  unfoldable pub finish : Tasks → ℕ → TransferTask → Option Bool → Tasks × Migration
  finish tasks shard_id t none = (set_status tasks shard_id t failed, stream_failed)
  finish tasks shard_id t (some false) = (set_status tasks shard_id t failed, target_failed)
  finish tasks shard_id t (some true) = (
    GoMap.set ℕ_discrete tasks shard_id (
        completed_task t (stream_sessions link now min_ttl shard_id no_progress (values sessions))),
    migrated (cleanup_shard_data accepts shard_id sessions),
  )

  unfoldable pub migrate_shard_data : Tasks → ℕ → Tasks × Migration
  migrate_shard_data tasks shard_id = elim (GoMap.get ℕ_discrete tasks shard_id) [
    | none ↦ (tasks, task_not_found)
    | some t ↦
        if not (link.connects t.target_addr)
        then (set_status tasks shard_id t failed, client_failed)
        else finish tasks shard_id t link.close
  ]

-- The migrations of a plan; `false` where one waits for ever.
unfoldable pub run_migrations :
    Link
    → (Str → Bool)
    → (now min_ttl : ℕ) → Map Str Session
    → GoMap ℕ MigrationTarget
    → Tasks
    → Tasks × Bool
run_migrations link accepts now min_ttl sessions [] tasks = (tasks, true)
run_migrations link accepts now min_ttl sessions ((s, target) ∷ l) tasks =
    let r = migrate_shard_data link accepts now min_ttl sessions tasks s in
    let rest = run_migrations link accepts now min_ttl (sessions_after sessions r.1) l r.0 in
    elim (ends r.1) [ true ↦ rest | false ↦ (r.0, false) ]

pub record Manager : Type 0 where
  pub tasks : Tasks
  pub is_running : Bool

pub data Triggered : Type 0 where
  in_progress no_migrations rebalanced waiting : Triggered

-- `TriggerRebalance`; while a migration waits, the manager stays marked as running.
unfoldable pub trigger_rebalance :
    Link
    → (Str → Bool)
    → (now min_ttl : ℕ) → Map Str Session
    → Manager
    → ShardMap
    → ShardMap
    → Manager × Triggered
trigger_rebalance link accepts now min_ttl sessions rm old_map new_map =
    let plan = compute_migrations old_map new_map in
    let created = create_tasks plan rm.tasks in
    let r = run_migrations link accepts now min_ttl sessions plan created in
    if rm.is_running
    then (rm, in_progress)
    else if length plan == 0
    then (rm, no_migrations)
    else if r.1
    then (record { tasks = r.0; is_running = false }, rebalanced)
    else (record { tasks = r.0; is_running = true }, waiting)
