-- ===== src/Cluster/Fsm/Tests.antt =====
-- A small library of codecs, a log of three entries, and each theorem on it.
use tokmesh_go.Base.{
  ◌≡◌, ◌≢◌, refl, false, Option, none, some, List, [], ◌∷◌, ◌++◌, ℕ_discrete, get_or, arith,
}
use tokmesh_go.Domain.Str.{str_dec}
use tokmesh_go.GoMap
use tokmesh_go.Cluster.ShardMap
use tokmesh_go.Cluster.ShardMap.{assign_shard, get_shard}
use tokmesh_go.Cluster.Fsm
use tokmesh_go.Cluster.Fsm.{◌>>=◌}
use tokmesh_go.Cluster.Fsm.Replay.{
  Command, assign, join, log_of, AllText, Agrees, apply_all-Agrees, replay_restored,
}

abbrev seven : Fsm.ShardMapUpdatePayload
seven = record { shard_id = 7; node_id = 97 ∷ []; replicas = [] }

abbrev node_b : Fsm.MemberJoinPayload
node_b = record { node_id = 98 ∷ []; addr = 1 ∷ [] }

abbrev commands : List Command
commands = assign seven ∷ join node_b ∷ []

-- the machine after them
abbrev machine : Fsm.Fsm
machine = record {
  shard_map = record {
    shards = (7, 97 ∷ []) ∷ [];
    replicas = [];
    version = 1;
    virtual_nodes = [];
    sorted_hashes = [];
  };
  members = some ((98 ∷ [], Fsm.joined node_b) ∷ []);
}

abbrev decode_entry : Fsm.Bytes → Option Fsm.LogEntry
decode_entry [] = none
decode_entry (t ∷ p) = some (record { entry_type = t; payload = p })

abbrev decode_update : Fsm.Bytes → Option Fsm.ShardMapUpdatePayload
decode_update [] = none
decode_update (s ∷ n) = some (record { shard_id = s; node_id = n; replicas = [] })

abbrev decode_join : Fsm.Bytes → Option Fsm.MemberJoinPayload
decode_join [] = none
decode_join (n ∷ a) = some (record { node_id = n ∷ []; addr = a })

abbrev unzip : Fsm.Bytes → Option Fsm.Bytes
unzip [] = none
unzip (x ∷ b) = some b

abbrev toy : Fsm.Library
unfolding Fsm.snapshot
toy = record {
  marshal_entry = λ e. e.entry_type ∷ e.payload;
  unmarshal_entry = decode_entry;
  marshal_update = λ u. u.shard_id ∷ u.node_id;
  unmarshal_update = decode_update;
  marshal_join = λ j. get_or j.node_id 0 0 ∷ j.addr;
  unmarshal_join = decode_join;
  marshal_leave = λ l. l.node_id;
  unmarshal_leave = λ b. some (record { node_id = b });
  encode_state = λ s. [];
  decode_state = λ b. some (Fsm.snapshot machine);
  gzip = λ b. 31 ∷ b;
  gunzip = unzip;
  IsJson = λ b. Unit;
  IsUpdateText = λ u. decode_update (u.shard_id ∷ u.node_id) ≡ some u;
  IsJoinText = λ j. decode_join (get_or j.node_id 0 0 ∷ j.addr) ≡ some j;
  IsLeaveText = λ l. Unit;
  IsStateText = λ s. some (Fsm.snapshot machine) ≡ some s;
  entry_lem = λ e h. refl;
  update_lem = λ u h. h;
  update-IsJson = λ u. tt;
  join_lem = λ j h. h;
  join-IsJson = λ j. tt;
  leave_lem = λ l h. refl;
  leave-IsJson = λ l. tt;
  state_lem = λ s h. h;
  gunzip-gzip = λ b. refl;
}

commands-AllText : AllText toy commands
unfolding toy
commands-AllText = (refl, (refl, tt))

new_map : Fsm.new.members ≢ none
unfolding Fsm.new
new_map e = absurd (ground (arith, e))

apply_all-Agrees_example :
    (g : Fsm.Fsm) × (Fsm.apply_all toy Fsm.new (log_of toy commands) ≡ Fsm.done g)
    × Agrees toy Fsm.new g commands
apply_all-Agrees_example = apply_all-Agrees toy Fsm.new commands new_map commands-AllText

program : Unit {0}
unfolding Fsm.new Fsm.apply Fsm.dispatch Fsm.apply_shard_map_update Fsm.apply_member_join
    Fsm.apply_member_leave Fsm.put_member Fsm.drop_member Fsm.snapshot Fsm.persist Fsm.restore
    Fsm.restored Fsm.apply_shard_update Fsm.apply_join Fsm.apply_leave ShardMap.new assign_shard
    get_shard GoMap.get GoMap.set GoMap.delete ℕ_discrete str_dec
program = tt

applied : Fsm.apply_all toy Fsm.new (log_of toy commands) ≡ Fsm.done machine
unfolding program
applied = refl

-- the two commands, a snapshot, and an entry of an unknown type
replay_restored_example :
    (Fsm.restore toy (Fsm.persist toy (Fsm.snapshot machine)) >>= λ g.
    Fsm.apply_all toy g ((9 ∷ []) ∷ []))
    ≡ Fsm.apply_all toy Fsm.new (log_of toy commands ++ (9 ∷ []) ∷ [])
unfolding toy
replay_restored_example =
    replay_restored toy machine (log_of toy commands) ((9 ∷ []) ∷ []) applied refl

unknown_type : Fsm.apply toy Fsm.new (9 ∷ []) ≡ Fsm.panicked
unfolding program
unknown_type = refl

not_leader : Fsm.apply_leave toy false (record { node_id = [] }) ≡ none
unfolding program
not_leader = refl
