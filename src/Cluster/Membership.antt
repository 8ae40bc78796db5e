-- ===== src/Cluster/Membership.antt =====
-- The membership of the cluster: the callbacks of the discovery (setupDiscoveryCallbacks of
-- src/internal/server/clusterserver/server.go) and the Join RPC (handler.go). Raft keeps the voters and
-- commits entries to the state machine; the answers of its calls are arguments. A call that fails leaves
-- the voters and the machine as they were.
mod Tests
use tokmesh_go.Base.{
  ◌≡◌, ◌≢◌, Bool, true, false, not, Option, none, some, if◌then◌else◌, ite, arith, Option-cases,
  inl, inr, ap, refl,
}
use tokmesh_go.Domain.Str.{Str, str_dec}
use tokmesh_go.GoMap
use tokmesh_go.GoMap.{GoMap}
use tokmesh_go.GoMap.Laws.{get-set, get-delete}
use tokmesh_go.Cluster.Fsm
use tokmesh_go.Cluster.Fsm.{Fsm, MemberJoinPayload}

-- The leader, its voters with their addresses, and its machine.
pub record Node : Type 0 where
  pub is_leader : Bool
  pub voters : GoMap Str Str
  pub members : GoMap Str Fsm.Member

-- How Raft answers the calls of one event.
pub record Answers : Type 0 where
  pub membership : Bool
  pub apply : Bool
  pub rollback : Bool

abbrev joining : Str → Str → MemberJoinPayload
joining node_id addr = record { node_id = node_id; addr = addr }

-- A committed join and a committed leave, as the machine applies them.
abbrev pub with_member : Node → Str → Str → Node
with_member n node_id addr = record n {
  members = GoMap.set str_dec n.members node_id (Fsm.joined (joining node_id addr));
}

abbrev pub without_member : Node → Str → Node
without_member n node_id = record n { members = GoMap.delete str_dec n.members node_id }

-- `AddVoter` and `RemoveServer` of Raft, when they succeed.
abbrev pub add_voter : Node → Str → Str → Node
add_voter n node_id addr = record n { voters = GoMap.set str_dec n.voters node_id addr }

abbrev pub remove_server : Node → Str → Node
remove_server n node_id = record n { voters = GoMap.delete str_dec n.voters node_id }

-- The callback of OnJoin: the voter first, and back if the machine refuses.
unfoldable pub on_join : Answers → Node → Str → Str → Node
on_join a n node_id addr =
    let voted = add_voter n node_id addr in
    if not n.is_leader
    then n
    else if not a.membership
    then n
    else if a.apply
    then with_member voted node_id addr
    else if a.rollback
    then remove_server voted node_id
    else voted

-- The callback of OnLeave.
unfoldable pub on_leave : Answers → Node → Str → Node
on_leave a n node_id =
    let left = remove_server n node_id in
    if not n.is_leader
    then n
    else if not a.membership
    then n
    else if a.apply
    then without_member left node_id
    else left

pub data Reply : Type 0 where
  rejected accepted internal_error : Reply

-- The Join RPC: the machine first.
unfoldable pub join : Answers → Node → Str → Str → Node × Reply
join a n node_id addr =
    let applied = with_member n node_id addr in
    if not n.is_leader
    then (n, rejected)
    else if not a.apply
    then (n, internal_error)
    else if not a.membership
    then (applied, internal_error)
    else (add_voter applied node_id addr, accepted)

abbrev pub knows {ℓ} : {V : Type ℓ} → Option V → Bool
knows none = false
knows (some v) = true

-- The voters are the members.
abbrev pub IsAligned : Node → Type 0
IsAligned n =
    (id : Str) → knows (GoMap.get str_dec n.voters id) ≡ knows (GoMap.get str_dec n.members id)

module _ (a : Answers) (n : Node) (aligned : IsAligned n) (node_id addr : Str) where
  -- A join of a node that is no voter keeps voters and members aligned, if a refused entry can be rolled back.
  pub on_join-IsAligned :
      GoMap.get str_dec n.voters node_id ≡ none
      → a.rollback ≡ true
      → IsAligned (on_join a n node_id addr)
  unfolding on_join
  on_join-IsAligned fresh back id = ground (
    arith,
    aligned id,
    get-set str_dec n.voters node_id addr id,
    get-delete str_dec (GoMap.set str_dec n.voters node_id addr) node_id id,
    get-set str_dec n.members node_id (Fsm.joined (joining node_id addr)) id,
  )

  -- A leave keeps them aligned, if the machine takes the entry.
  pub on_leave-IsAligned : a.apply ≡ true → IsAligned (on_leave a n node_id)
  unfolding on_leave
  on_leave-IsAligned ok id = ground (
    arith,
    aligned id,
    get-delete str_dec n.voters node_id id,
    get-delete str_dec n.members node_id id,
  )

  -- The Join RPC of a new node leaves a member that is no voter if Raft refuses the voter.
  pub join_strands_member :
      n.is_leader ≡ true
      → a.apply ≡ true
      → a.membership ≡ false
      → GoMap.get str_dec n.voters node_id ≡ none
      → ((join a n node_id addr).1 ≡ internal_error)
        × (knows (GoMap.get str_dec (join a n node_id addr).0.voters node_id) ≡ false)
        × (knows (GoMap.get str_dec (join a n node_id addr).0.members node_id) ≡ true)
  unfolding join
  join_strands_member leads ok refused fresh =
      ground (arith, get-set str_dec n.members node_id (Fsm.joined (joining node_id addr)) node_id)
