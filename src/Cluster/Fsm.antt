-- ===== src/Cluster/Fsm.antt =====
-- The replicated state machine (src/internal/server/clusterserver/fsm.go), and the entries that the
-- leader hands to Raft (server.go). JSON and gzip are a record of functions with their laws; Raft calls
-- `Apply` with each committed entry. A decoded shard map has its maps.
pub mod Replay
pub mod Tests
use tokmesh_go.Base.{
  ℕ, ◌≡◌, Bool, true, false, Option, none, some, List, [], ◌∷◌, ◌==◌, if◌then◌else◌,
}
use tokmesh_go.Domain.Str.{Str, str_dec, bytes}
use tokmesh_go.GoMap
use tokmesh_go.GoMap.{GoMap}
use tokmesh_go.Cluster.ShardMap
use tokmesh_go.Cluster.ShardMap.{ShardMap, assign_shard}

abbrev pub Bytes : Type 0
Bytes = List ℕ

abbrev pub shard_map_update : ℕ
shard_map_update = 1

abbrev pub member_join : ℕ
member_join = 2

abbrev pub member_leave : ℕ
member_leave = 3

abbrev pub config_change : ℕ
config_change = 4

pub record LogEntry : Type 0 where
  pub entry_type : ℕ
  pub payload : Bytes

pub record ShardMapUpdatePayload : Type 0 where
  pub shard_id : ℕ
  pub node_id : Str
  pub replicas : List Str

pub record MemberJoinPayload : Type 0 where
  pub node_id : Str
  pub addr : Str

pub record MemberLeavePayload : Type 0 where
  pub node_id : Str

pub record Member : Type 0 where
  pub node_id : Str
  pub addr : Str
  pub is_leader : Bool
  pub state : Str

-- `none` is the nil map, which JSON may leave in a restored machine.
pub record Fsm : Type 0 where
  pub shard_map : ShardMap
  pub members : Option (GoMap Str Member)

-- The document of a snapshot; `none` is what JSON leaves of a missing field.
pub record State : Type 0 where
  pub shard_map : Option ShardMap
  pub members : Option (GoMap Str Member)

-- What the code takes from encoding/json and compress/gzip: a value of valid texts is read back.
pub record Library : Type 1 where
  pub marshal_entry : LogEntry → Bytes
  pub unmarshal_entry : Bytes → Option LogEntry
  pub marshal_update : ShardMapUpdatePayload → Bytes
  pub unmarshal_update : Bytes → Option ShardMapUpdatePayload
  pub marshal_join : MemberJoinPayload → Bytes
  pub unmarshal_join : Bytes → Option MemberJoinPayload
  pub marshal_leave : MemberLeavePayload → Bytes
  pub unmarshal_leave : Bytes → Option MemberLeavePayload
  pub encode_state : State → Bytes
  pub decode_state : Bytes → Option State
  pub gzip : Bytes → Bytes
  pub gunzip : Bytes → Option Bytes
  pub IsJson : Bytes → Type 0
  pub IsUpdateText : ShardMapUpdatePayload → Type 0
  pub IsJoinText : MemberJoinPayload → Type 0
  pub IsLeaveText : MemberLeavePayload → Type 0
  pub IsStateText : State → Type 0
  pub entry_lem : (e : LogEntry) → IsJson e.payload → unmarshal_entry (marshal_entry e) ≡ some e
  pub update_lem :
      (u : ShardMapUpdatePayload) → IsUpdateText u → unmarshal_update (marshal_update u) ≡ some u
  pub update-IsJson : (u : ShardMapUpdatePayload) → IsJson (marshal_update u)
  pub join_lem : (j : MemberJoinPayload) → IsJoinText j → unmarshal_join (marshal_join j) ≡ some j
  pub join-IsJson : (j : MemberJoinPayload) → IsJson (marshal_join j)
  pub leave_lem :
      (l : MemberLeavePayload) → IsLeaveText l → unmarshal_leave (marshal_leave l) ≡ some l
  pub leave-IsJson : (l : MemberLeavePayload) → IsJson (marshal_leave l)
  pub state_lem : (s : State) → IsStateText s → decode_state (encode_state s) ≡ some s
  pub gunzip-gzip : (b : Bytes) → gunzip (gzip b) ≡ some b

pub data Outcome {ℓ} (A : Type ℓ) : Type ℓ where
  done : A → Outcome A
  failed panicked : Outcome A

infixl 20 ◌>>=◌
abbrev pub ◌>>=◌ {ℓ} : {A B : Type ℓ} → Outcome A → (A → Outcome B) → Outcome B
done a >>= f = f a
failed >>= f = failed
panicked >>= f = panicked

-- `NewFSM`
unfoldable pub new : Fsm
new = record { shard_map = ShardMap.new; members = some [] }

abbrev pub joined : MemberJoinPayload → Member
joined j = record { node_id = j.node_id; addr = j.addr; is_leader = false; state = bytes "alive" }

-- A write to a nil map panics.
unfoldable pub put_member : Fsm → MemberJoinPayload → Outcome Fsm
put_member f j = elim f.members [
  | none ↦ panicked
  | some ms ↦ done (record f { members = some (GoMap.set str_dec ms j.node_id (joined j)) })
]

-- A delete from a nil map does nothing.
unfoldable pub drop_member : Option (GoMap Str Member) → Str → Option (GoMap Str Member)
drop_member none id = none
drop_member (some ms) id = some (GoMap.delete str_dec ms id)

abbrev pub or_empty : Option (GoMap Str Member) → GoMap Str Member
or_empty none = []
or_empty (some ms) = ms

-- `GetMembers`: a copy
unfoldable pub get_members : Fsm → GoMap Str Member
get_members f = or_empty f.members

-- `Snapshot`: a copy, whose map of members is never nil
unfoldable pub snapshot : Fsm → State
snapshot f = record { shard_map = some f.shard_map; members = some (or_empty f.members) }

module _ (lib : Library) where
  unfoldable pub apply_shard_map_update : Fsm → Bytes → Outcome Fsm
  apply_shard_map_update f payload = elim (lib.unmarshal_update payload) [
    | none ↦ panicked
    | some u ↦
        done (record f { shard_map = assign_shard f.shard_map u.shard_id u.node_id u.replicas })
  ]

  unfoldable pub apply_member_join : Fsm → Bytes → Outcome Fsm
  apply_member_join f payload = elim (lib.unmarshal_join payload) [
    | none ↦ panicked
    | some j ↦ put_member f j
  ]

  unfoldable pub apply_member_leave : Fsm → Bytes → Outcome Fsm
  apply_member_leave f payload = elim (lib.unmarshal_leave payload) [
    | none ↦ panicked
    | some l ↦ done (record f { members = drop_member f.members l.node_id })
  ]

  -- The `switch` of `Apply`; a change of the configuration is not implemented there.
  unfoldable pub dispatch : Fsm → LogEntry → Outcome Fsm
  dispatch f e =
      if e.entry_type == shard_map_update
      then apply_shard_map_update f e.payload
      else if e.entry_type == member_join
      then apply_member_join f e.payload
      else if e.entry_type == member_leave
      then apply_member_leave f e.payload
      else if e.entry_type == config_change
      then done f
      else panicked

  unfoldable pub apply : Fsm → Bytes → Outcome Fsm
  apply f log_data = elim (lib.unmarshal_entry log_data) [ none ↦ panicked | some e ↦ dispatch f e ]

  -- Raft's calls for the entries of the log, in order.
  abbrev pub apply_all : Fsm → List Bytes → Outcome Fsm
  apply_all f [] = done f
  apply_all f (entry ∷ log) = apply f entry >>= λ g. apply_all g log

  -- `Persist`, whose sink takes all bytes.
  unfoldable pub persist : State → Bytes
  persist s = lib.gzip (lib.encode_state s)

  -- A nil shard map is read for the log message.
  unfoldable pub restored : State → Outcome Fsm
  restored s = elim s.shard_map [
    | none ↦ panicked
    | some m ↦ done (record { shard_map = m; members = s.members })
  ]

  -- `Restore` replaces the whole state, so it does not take one.
  unfoldable pub restore : Bytes → Outcome Fsm
  restore b = elim (lib.gunzip b) [
    | none ↦ failed
    | some doc ↦ elim (lib.decode_state doc) [ none ↦ failed | some s ↦ restored s ]
  ]

  -- `encodeLogEntry`, of a payload that is marshalled already
  abbrev pub encode_log_entry : ℕ → Bytes → Bytes
  encode_log_entry entry_type payload =
      lib.marshal_entry (record { entry_type = entry_type; payload = payload })

  -- What `ApplyShardUpdate`, `ApplyMemberJoin` and `ApplyMemberLeave` hand to Raft; `none` is ErrNotLeader.
  unfoldable pub apply_shard_update : Bool → ShardMapUpdatePayload → Option Bytes
  apply_shard_update is_leader u =
      if is_leader then some (encode_log_entry shard_map_update (lib.marshal_update u)) else none

  unfoldable pub apply_join : Bool → MemberJoinPayload → Option Bytes
  apply_join is_leader j =
      if is_leader then some (encode_log_entry member_join (lib.marshal_join j)) else none

  unfoldable pub apply_leave : Bool → MemberLeavePayload → Option Bytes
  apply_leave is_leader l =
      if is_leader then some (encode_log_entry member_leave (lib.marshal_leave l)) else none
