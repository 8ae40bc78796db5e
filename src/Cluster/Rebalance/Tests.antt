-- ===== src/Cluster/Rebalance/Tests.antt =====
-- A shard with two sessions, and each theorem on it.
use tokmesh_go.Base.{◌≡◌, refl, true, false, some, [], ◌∷◌, length, ℕ_discrete, arith}
use tokmesh_go.Domain.Str.{Str, str_dec}
use tokmesh_go.Domain.Session.{Session, is_expired}
use tokmesh_go.Memory.Samples.{alice, bob}
use tokmesh_go.GoMap
use tokmesh_go.Cluster.ShardMap.{ShardMap, new, assign_shard, get_shard}
use tokmesh_go.Cluster.Rebalance.{
  Link, Tasks, TransferTask, pending, completed, migrated, no_progress, visit, stream_sessions,
  finish, migrate_shard_data, plan_from, compute_migrations, create_tasks, run_migrations,
  trigger_rebalance, waiting,
}
use tokmesh_go.Cmap
use tokmesh_go.Cmap.{Map}
use tokmesh_go.Cmap.Laws as CmapLaws
use tokmesh_go.Cmap.Entries.{IsPlaced, new-IsPlaced, set-IsPlaced}
use tokmesh_go.Cmap.Iter.{values, range, range_shards, range_shard}
use tokmesh_go.Cmap.Locked.{holds_lock, range_items, range_from, range_locked, pop_locked}
use tokmesh_go.Cluster.Cleanup.{cleaned, blocked, delete_session, cleanup_one, cleanup_shard_data}
use tokmesh_go.Cluster.Cleanup.Blocked.{IsNamed}
use tokmesh_go.Cluster.Rebalance.Transfer.{
  IsUp, IsIn, lasting, migrate_skips_unexpiring, migrate_blocks, migrate_refused,
}

abbrev up : Link
up = record {
  connects = λ addr. true;
  marshal = λ x. some (x.version ∷ []);
  wait = λ x. true;
  send = λ x. true;
  close = some true;
}

abbrev task : TransferTask
task = record {
  shard_id = 0;
  target_node = 98 ∷ [];
  target_addr = [];
  status = pending;
  progress = record {
    total_items = 0;
    transferred_items = 0;
    bytes_transferred = 0;
    skipped_expired = 0;
  };
}

abbrev tasks : Tasks
tasks = (0, task) ∷ []

-- a session that never expires
abbrev unexpiring : Session
unexpiring = record bob { expires_at = 0 }

abbrev empty : Map Str Session
empty = Cmap.new (λ k. length k)

abbrev only_alice : Map Str Session
only_alice = Cmap.set str_dec empty alice.id alice

abbrev stored : Map Str Session
stored = Cmap.set str_dec only_alice unexpiring.id unexpiring

abbrev both : Map Str Session
both = Cmap.set str_dec only_alice bob.id bob

empty-IsValid : Cmap.IsValid empty
empty-IsValid = CmapLaws.new-IsValid (λ k. length k)

only_alice-IsValid : Cmap.IsValid only_alice
only_alice-IsValid = CmapLaws.set-IsValid str_dec empty empty-IsValid alice.id alice

stored-IsValid : Cmap.IsValid stored
stored-IsValid = CmapLaws.set-IsValid str_dec only_alice only_alice-IsValid unexpiring.id unexpiring

stored-IsPlaced : IsPlaced str_dec stored
stored-IsPlaced =
    set-IsPlaced str_dec only_alice
      (set-IsPlaced str_dec empty (new-IsPlaced Session str_dec (λ k. length k)) alice.id alice)
      unexpiring.id unexpiring

stored-IsNamed : IsNamed stored
stored-IsNamed k x e = ground (
  arith,
  e,
  CmapLaws.get-set str_dec only_alice only_alice-IsValid unexpiring.id unexpiring k,
  CmapLaws.get-set str_dec empty empty-IsValid alice.id alice k,
  CmapLaws.get-new {V = Session} str_dec (λ j. length j) k,
)

up-IsUp : IsUp up 1000 60 0
up-IsUp = record {
  marshals = λ x e. absurd (ground (arith, e));
  waits = λ x. refl;
  sends = λ x. refl;
}

program : Unit {0}
unfolding visit stream_sessions cleanup_shard_data finish migrate_shard_data plan_from
    compute_migrations create_tasks run_migrations trigger_rebalance new assign_shard get_shard
    is_expired GoMap.get GoMap.set ℕ_discrete str_dec values range range_shards range_shard Cmap.new
    Cmap.new_with_shards Cmap.get Cmap.set Cmap.get_shard Cmap.put_shard Cmap.pop holds_lock
    range_items range_from range_locked pop_locked delete_session cleanup_one
program = tt

both_last : length (lasting 1000 60 0 (values both)) ≡ 2
unfolding program
both_last = refl

migrate_skips_unexpiring_example :
    (¬ IsIn unexpiring (stream_sessions up 1000 60 0 no_progress (values stored)).sent)
    × ((done : TransferTask) × (GoMap.get ℕ_discrete
            (migrate_shard_data up (λ id. true) 1000 60 stored tasks 0).0
            0
          ≡ some done)
        × (done.status ≡ completed))
unfolding program
migrate_skips_unexpiring_example =
    migrate_skips_unexpiring up (λ id. true) 1000 60 0 stored tasks task refl refl refl unexpiring
      up-IsUp (λ at. refl) (ground arith)

migrate_blocks_example :
    (migrate_shard_data up (λ id. true) 1000 60 stored tasks 0).1 ≡ migrated blocked
unfolding program
migrate_blocks_example =
    migrate_blocks up (λ id. true) 1000 60 0 stored tasks task refl refl refl alice.id alice
      stored-IsValid stored-IsPlaced stored-IsNamed refl refl refl

-- a cleanup whose deletions the log refuses ends
refused_ends :
    (migrate_shard_data up (λ id. false) 1000 60 stored tasks 0).1 ≡ migrated (cleaned stored true)
unfolding program
refused_ends = refl

abbrev refusing : Link
refusing = record up { send = λ x. false }

migrate_refused_example :
    ((stream_sessions refusing 1000 60 0 no_progress (values stored)).sent ≡ [])
    × ((done : TransferTask) × (GoMap.get ℕ_discrete
            (migrate_shard_data refusing (λ id. true) 1000 60 stored tasks 0).0
            0
          ≡ some done)
        × (done.status ≡ completed)
        × (done.progress.transferred_items ≡ 0))
unfolding program
migrate_refused_example =
    migrate_refused refusing (λ id. true) 1000 60 0 stored tasks task refl refl refl alice
      (unexpiring ∷ []) refl refl (λ e. absurd (ground (arith, e))) refl

abbrev old_map : ShardMap
old_map = assign_shard new 3 (97 ∷ []) []

abbrev new_map : ShardMap
new_map = assign_shard old_map 3 (98 ∷ []) []

one_move : compute_migrations old_map new_map ≡ (3, record { node_id = 98 ∷ []; addr = [] }) ∷ []
unfolding program
one_move = refl

triggered :
    (trigger_rebalance up
      (λ id. true)
      1000
      60
      (Cmap.set str_dec empty alice.id (record alice { shard_id = 3 }))
      (record { tasks = []; is_running = false })
      old_map
      new_map).1
    ≡ waiting
unfolding program
triggered = refl
