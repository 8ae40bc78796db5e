-- ===== src/Cluster/ShardMap/Tests.antt =====
-- A ring of two nodes under a small hash, and each theorem on it.
use tokmesh_go.Base.{
  ℕ, ◌+◌, ◌*◌, ◌<◌, ◌≡◌, ◌⊎◌, ◌↔◌, inl, inr, refl, ◌∙◌, ap, none, some, [], ◌∷◌, ℕ_discrete, dec_lt,
  get_or, arith,
}
use tokmesh_go.Domain.Str.{Str, str_dec}
use tokmesh_go.Domain.Strings.{str_leb}
use tokmesh_go.GoMap
use tokmesh_go.Cluster.Sorted.{sort, insert, search_first, search_loop}
use tokmesh_go.Cluster.ShardMap.{
  ShardMap, new, assign_shard, get_shard, get_replicas, get_replication_factor, hash_key,
  get_shard_for_key, hash_virtual_node, default_virtual_node_count, get_node_for_hash, add_node,
  remove_node, unassign, node_set, insert_str, sort_strings, get_all_nodes, get_stats,
}
use tokmesh_go.Cluster.ShardMap.Ring.{is_some, IsRing, get-put, get-put_own}
use tokmesh_go.Cluster.ShardMap.Owner.{IsNext, get_node_for_hash-IsNext, IsNext→get_node}
use tokmesh_go.Cluster.ShardMap.Moves.{get_node-add_node, get_node-remove_node}
use tokmesh_go.Cluster.ShardMap.Run.{join, run, shard_map_run-IsRing}

abbrev node_a : Str
node_a = 97 ∷ []

abbrev node_b : Str
node_b = 98 ∷ []

-- the first byte and the last byte of the index
abbrev pub toy_sum : Str → ℕ
toy_sum (x ∷ _ ∷ _ ∷ _ ∷ i ∷ _) = x * 256 + i
toy_sum (x ∷ _) = x
toy_sum [] = 0

abbrev ring_of_two : ShardMap
ring_of_two = run toy_sum new (join node_a ∷ join node_b ∷ [])

shard_map_run-IsRing_example : IsRing toy_sum ring_of_two
shard_map_run-IsRing_example = shard_map_run-IsRing toy_sum (join node_a ∷ join node_b ∷ [])

ring_of_two-IsRing : IsRing toy_sum ring_of_two
ring_of_two-IsRing = shard_map_run-IsRing toy_sum (join node_a ∷ join node_b ∷ [])

-- the first virtual node of b
first_of_b : GoMap.get ℕ_discrete ring_of_two.virtual_nodes 25088 ≡ some node_b
unfolding new add_node hash_virtual_node
first_of_b = get-put_own toy_sum node_b 255 0 (add_node toy_sum new node_a).virtual_nodes

first_of_b-IsNext : IsNext ring_of_two.virtual_nodes 25088 25088
first_of_b-IsNext = (ap is_some first_of_b, inl (omega arith, λ w h p. p))

get_node_for_hash-IsNext_example : (get_node_for_hash ring_of_two 25088 ≡ some node_b) ↔ (
    (v : ℕ) × (GoMap.get ℕ_discrete ring_of_two.virtual_nodes v ≡ some node_b)
    × IsNext ring_of_two.virtual_nodes 25088 v)
get_node_for_hash-IsNext_example =
    get_node_for_hash-IsNext toy_sum ring_of_two ring_of_two-IsRing 25088 node_b

get_node-add_node_example :
    (get_node_for_hash (add_node toy_sum ring_of_two (99 ∷ [])) 25300 ≡ some (99 ∷ []))
    ⊎ (get_node_for_hash (add_node toy_sum ring_of_two (99 ∷ [])) 25300
        ≡ get_node_for_hash ring_of_two 25300)
get_node-add_node_example = get_node-add_node toy_sum ring_of_two ring_of_two-IsRing (99 ∷ []) 25300

-- no virtual node of b is at a hash of a
apart :
    (i : ℕ) (w : Str)
    → i < default_virtual_node_count
    → GoMap.get ℕ_discrete ring_of_two.virtual_nodes (hash_virtual_node toy_sum node_a i) ≡ some w
    → w ≡ node_a
unfolding new add_node hash_virtual_node GoMap.get
apart i w p e =
    let v = hash_virtual_node toy_sum node_a i in
    let (k, q, at) = ring_of_two-IsRing.origin v w e in
    elim (get-put toy_sum node_b 256 0 (add_node toy_sum new node_a).virtual_nodes v) [
      | inl b ↦ absurd (
          let same : w ≡ node_b = ground (arith, e, b) in
          let clash = at ∙ ap (λ n. hash_virtual_node toy_sum n k) same in omega (arith, clash))
      | inr old ↦ elim (get-put toy_sum node_a 256 0 [] v) [
        | inl a ↦ ground (arith, e, old, a)
        | inr nothing ↦ absurd (ground (arith, e, old, nothing))
      ]
    ]

get_node-remove_node_example :
    get_node_for_hash (remove_node toy_sum ring_of_two node_a) 25088 ≡ some node_b
get_node-remove_node_example =
    get_node-remove_node toy_sum ring_of_two ring_of_two-IsRing node_a 25088 node_b apart
      (λ e. omega (arith, ap (λ (s : Str). get_or s 0 0) e))
      (IsNext→get_node toy_sum ring_of_two ring_of_two-IsRing 25088 25088 node_b first_of_b
        first_of_b-IsNext)

program : Unit {0}
unfolding new assign_shard get_shard get_replicas get_replication_factor hash_key get_shard_for_key
    unassign node_set str_leb insert_str sort_strings get_all_nodes get_stats get_node_for_hash
    search_first search_loop sort insert GoMap.get GoMap.set ℕ_discrete str_dec dec_lt
program = tt

-- A small ring by hand.
abbrev small : ShardMap
small = record new {
  shards = (3, node_a) ∷ [];
  virtual_nodes = (40, node_b) ∷ (10, node_a) ∷ (30, node_a) ∷ [];
  sorted_hashes = 10 ∷ 30 ∷ 40 ∷ [];
}

lookups :
    (get_node_for_hash small 5 ≡ some node_a)
    × (get_node_for_hash small 31 ≡ some node_b)
    × (get_node_for_hash small 41 ≡ some node_a)
    × (get_node_for_hash new 41 ≡ none)
unfolding program
lookups = (refl, refl, refl, refl)

nodes_of_small : get_all_nodes small ≡ node_a ∷ node_b ∷ []
unfolding program
nodes_of_small = refl

stats_of_small : (get_stats small).total_nodes ≡ 2
unfolding program
stats_of_small = refl

-- an assignment without replicas leaves the old ones
stale_replicas :
    get_replicas (assign_shard (assign_shard new 7 node_a (node_b ∷ [])) 7 node_b []) 7
    ≡ node_b ∷ []
unfolding program
stale_replicas = refl

key_shard : get_shard_for_key toy_sum small (3 ∷ []) ≡ (3, some node_a)
unfolding program
key_shard = refl
