-- ===== src/Cluster/Membership/Tests.antt =====
-- A leader with one voter, and each theorem on it.
use tokmesh_go.Base.{true, false, [], ◌∷◌, arith}
use tokmesh_go.Domain.Str.{Str}
use tokmesh_go.GoMap
use tokmesh_go.Cluster.Fsm
use tokmesh_go.Cluster.Membership.{Node, Answers, IsAligned}

abbrev node_a : Str
node_a = 97 ∷ []

abbrev node_b : Str
node_b = 98 ∷ []

abbrev leader : Node
leader = record {
  is_leader = true;
  voters = (node_a, 1 ∷ []) ∷ [];
  members = (node_a, Fsm.joined (record { node_id = node_a; addr = 1 ∷ [] })) ∷ [];
}

leader-IsAligned : IsAligned leader
unfolding GoMap.get
leader-IsAligned id = ground arith

-- Raft takes the voter, and the machine does not answer
abbrev half : Answers
half = record { membership = true; apply = false; rollback = true }
