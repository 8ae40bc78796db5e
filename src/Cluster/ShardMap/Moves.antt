-- ===== src/Cluster/ShardMap/Moves.antt =====
-- What the arrival and the departure of a node move (`AddNode`, `RemoveNode`).
use tokmesh_go.Base.{ℕ, ◌<◌, ◌≡◌, ◌≢◌, ◌⊎◌, inl, inr, refl, sym, ◌∙◌, ap, some, ℕ_discrete, arith}
use tokmesh_go.Domain.Str.{Str}
use tokmesh_go.GoMap
use tokmesh_go.Cluster.ShardMap.{
  ShardMap, hash_virtual_node, put_virtual_nodes, drop_virtual_nodes, default_virtual_node_count,
  get_node_for_hash, add_node, remove_node,
}
use tokmesh_go.Cluster.ShardMap.Ring.{
  is_some, IsRing, rebuild-IsRing, get-put, get-put_own, put-HasOrigin, put-IsUnique, get-drop,
  get-drop_own, get-drop_ne, drop-HasOrigin, drop-IsUnique,
}
use tokmesh_go.Cluster.ShardMap.Owner.{
  IsNext-fewer, get_node→IsNext, IsNext→get_node, get_node-some,
}

module _ (sum64 : Str → ℕ) (m : ShardMap) (ring : IsRing sum64 m) (a : Str) where
  pub add_node-IsRing : IsRing sum64 (add_node sum64 m a)
  unfolding add_node
  add_node-IsRing =
      rebuild-IsRing sum64 (add_node sum64 m a) refl
        (put-IsUnique sum64 a default_virtual_node_count 0 m.virtual_nodes ring.unique)
        (put-HasOrigin sum64 a default_virtual_node_count 0 m.virtual_nodes (omega arith)
          ring.origin)

  pub remove_node-IsRing : IsRing sum64 (remove_node sum64 m a)
  unfolding remove_node
  remove_node-IsRing =
      rebuild-IsRing sum64 (remove_node sum64 m a) refl
        (drop-IsUnique sum64 a default_virtual_node_count 0 m.virtual_nodes ring.unique)
        (drop-HasOrigin sum64 a default_virtual_node_count 0 m.virtual_nodes ring.origin)

  -- After `AddNode` on a ring that keeps the invariant, each hash is on the new node or on the
  -- node that it was on.
  pub get_node-add_node :
      (hash : ℕ)
      → (get_node_for_hash (add_node sum64 m a) hash ≡ some a)
        ⊎ (get_node_for_hash (add_node sum64 m a) hash ≡ get_node_for_hash m hash)
  unfolding add_node
  get_node-add_node hash =
      let nodes = put_virtual_nodes sum64 a default_virtual_node_count 0 m.virtual_nodes in
      let own = get-put_own sum64 a 255 0 m.virtual_nodes in
      let (n, e) =
        get_node-some sum64 (add_node sum64 m a) add_node-IsRing hash (hash_virtual_node sum64 a 0)
          (ap is_some own) in
      let (v, there, next) = get_node→IsNext sum64 (add_node sum64 m a) add_node-IsRing hash n e in
      elim (get-put sum64 a default_virtual_node_count 0 m.virtual_nodes v) [
        | inl mine ↦ inl (e ∙ sym there ∙ mine)
        | inr old ↦
            let before = sym old ∙ there in
            inr (
              e
              ∙ sym (
                  IsNext→get_node sum64 m ring hash v n before (
                    IsNext-fewer nodes m.virtual_nodes hash v
                      (λ w h.
                        ground (
                          arith,
                          h,
                          get-put sum64 a default_virtual_node_count 0 m.virtual_nodes w,
                        ))
                      (ap is_some before) next)))
      ]

  -- After `RemoveNode` of a node, no hash is on it.
  pub removed_silent : (hash : ℕ) → get_node_for_hash (remove_node sum64 m a) hash ≢ some a
  unfolding remove_node
  removed_silent hash e =
      let (v, there, _) =
        get_node→IsNext sum64 (remove_node sum64 m a) remove_node-IsRing hash a e in
      let count = default_virtual_node_count in
      let before : GoMap.get ℕ_discrete m.virtual_nodes v ≡ some a =
        ground (arith, there, get-drop sum64 a count 0 m.virtual_nodes v) in
      let (i, small, at) = ring.origin v a before in
      let gone = get-drop_own sum64 a count 0 m.virtual_nodes i (omega arith) (omega arith) in
      absurd (ground (arith, there, gone, at))

  -- After `RemoveNode` on a ring that keeps the invariant, a hash that was on another node stays
  -- on it, if no virtual node of another node is at one of the hashes of the removed one.
  pub get_node-remove_node :
      (hash : ℕ) (n : Str)
      → ((i : ℕ) (w : Str)
          → i < default_virtual_node_count
          → GoMap.get ℕ_discrete m.virtual_nodes (hash_virtual_node sum64 a i) ≡ some w
          → w ≡ a)
      → n ≢ a
      → get_node_for_hash m hash ≡ some n
      → get_node_for_hash (remove_node sum64 m a) hash ≡ some n
  unfolding remove_node
  get_node-remove_node hash n apart ne e =
      let (v, there, next) = get_node→IsNext sum64 m ring hash n e in
      let count = default_virtual_node_count in
      let nodes = drop_virtual_nodes sum64 a count 0 m.virtual_nodes in
      let kept : GoMap.get ℕ_discrete nodes v ≡ some n =
        get-drop_ne sum64 a count 0 m.virtual_nodes v (λ k p q.
          ne (apart k n (omega arith) (ap (GoMap.get ℕ_discrete m.virtual_nodes) q ∙ there)))
        ∙ there in
      IsNext→get_node sum64 (remove_node sum64 m a) remove_node-IsRing hash v n kept (
        IsNext-fewer m.virtual_nodes nodes hash v
          (λ w h. ground (arith, h, get-drop sum64 a count 0 m.virtual_nodes w)) (ap is_some kept)
          next)
