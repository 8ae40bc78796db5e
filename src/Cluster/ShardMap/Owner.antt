-- ===== src/Cluster/ShardMap/Owner.antt =====
-- The node of a hash: the owner of the next virtual node on the ring, and what the arrival and the
-- departure of a node move.
use tokmesh_go.Base.{
  ℕ, ◌≤◌, ◌<◌, ◌≡◌, ◌⊎◌, ◌↔◌, ap, ◌==◌, if◌then◌else◌, inl, inr, refl, sym, ◌∙◌, true, some, List,
  [], ◌∷◌, length, get_or, ℕ_discrete, dec_lt, arith, Option-cases,
}
use tokmesh_go.Domain.Str.{Str}
use tokmesh_go.GoMap
use tokmesh_go.GoMap.{GoMap}
use tokmesh_go.Cluster.Sorted.{
  elem, below, search_first-below, below-first, below-all, below-le, get_or-le, elem-get_or,
}
use tokmesh_go.Cluster.ShardMap.{ShardMap, get_node_for_hash, node_at}
use tokmesh_go.Cluster.ShardMap.Ring.{has, IsRing}

-- The next virtual node from `hash` on, clockwise: the least one that is not below, or else the least.
abbrev pub IsNext : GoMap ℕ Str → ℕ → ℕ → Type 0
IsNext nodes hash v =
    (has nodes v ≡ true)
    × (((hash ≤ v) × ((w : ℕ) → has nodes w ≡ true → hash ≤ w → v ≤ w))
        ⊎ ((w : ℕ) → has nodes w ≡ true → (w < hash) × (v ≤ w)))

IsNext-unique :
    (nodes : GoMap ℕ Str) (hash v w : ℕ) → IsNext nodes hash v → IsNext nodes hash w → v ≡ w
IsNext-unique nodes hash v w (hv, inl p) (hw, inl q) = omega (arith, p.1 w hw q.0, q.1 v hv p.0)
IsNext-unique nodes hash v w (hv, inl p) (hw, inr q) = absurd (omega (arith, q v hv, p.0))
IsNext-unique nodes hash v w (hv, inr p) (hw, inl q) = absurd (omega (arith, p w hw, q.0))
IsNext-unique nodes hash v w (hv, inr p) (hw, inr q) = omega (arith, p w hw, q v hv)

-- The next one stays the next one when others go.
pub IsNext-fewer :
    (more fewer : GoMap ℕ Str) (hash v : ℕ)
    → ((w : ℕ) → has fewer w ≡ true → has more w ≡ true)
    → has fewer v ≡ true
    → IsNext more hash v
    → IsNext fewer hash v
IsNext-fewer more fewer hash v sub there (_, inl p) = (there, inl (p.0, λ w m q. p.1 w (sub w m) q))
IsNext-fewer more fewer hash v sub there (_, inr p) = (there, inr (λ w m. p w (sub w m)))

elem_pos : (k : List ℕ) (v : ℕ) → elem v k ≡ true → 0 < length k
unfolding elem
elem_pos [] v h = absurd (cc)
elem_pos (x ∷ k) v h = omega arith

-- Where the search of `GetNodeForHash` ends, around the ring.
abbrev position : ℕ → List ℕ → ℕ
position h l = if below h l == length l then 0 else below h l

module _ (sum64 : Str → ℕ) (m : ShardMap) (ring : IsRing sum64 m) (hash : ℕ) where
  open ring use {sorted, hashes}

  abbrev l : List ℕ
  l = m.sorted_hashes

  abbrev next_hash : ℕ
  next_hash = get_or l (position hash l) 0

  next_hash-IsNext : 0 < length m.sorted_hashes → IsNext m.virtual_nodes hash next_hash
  next_hash-IsNext p = elim (ℕ_discrete (below hash l) (length l)) [
    | yes e ↦
        let q : position hash l ≡ 0 = ground arith in
        rw q (
          sym (hashes _) ∙ elem-get_or l 0 p,
          inr (λ w h. (below-all hash l w e (hashes w ∙ h), get_or-le l w sorted (hashes w ∙ h))),
        )
    | no e ↦
        let q : position hash l ≡ below hash l = ground arith in
        let short : below hash l < length l = omega (arith, below-le hash l) in
        rw q (
          sym (hashes _) ∙ elem-get_or l (below hash l) short,
          inl (
            (below-first hash l (below hash l) 0 sorted refl short).0,
            λ w h r. (below-first hash l (below hash l) w sorted refl short).1 (hashes w ∙ h) r,
          ),
        )
  ]

  get_node-next_hash :
      0 < length m.sorted_hashes
      → get_node_for_hash m hash ≡ some (node_at (GoMap.get ℕ_discrete m.virtual_nodes next_hash))
  unfolding get_node_for_hash
  get_node-next_hash p = rw (search_first-below hash m.sorted_hashes sorted) (ground arith)

  has_node :
      (v : ℕ)
      → has m.virtual_nodes v ≡ true
      → (n : Str) × (GoMap.get ℕ_discrete m.virtual_nodes v ≡ some n)
  has_node v h = elim (Option-cases (GoMap.get ℕ_discrete m.virtual_nodes v)) [
    | inl e ↦ absurd (ground (arith, e, h))
    | inr (n, e) ↦ (n, e)
  ]

  -- A node that is given is the one of the next virtual node.
  pub get_node→IsNext :
      (n : Str)
      → get_node_for_hash m hash ≡ some n
      → (v : ℕ) × (GoMap.get ℕ_discrete m.virtual_nodes v ≡ some n)
        × (IsNext m.virtual_nodes hash v)
  unfolding get_node_for_hash
  get_node→IsNext n e = elim (dec_lt 0 (length l)) [
    | no p ↦ absurd (ground (arith, e))
    | yes p ↦
        let next = next_hash-IsNext p in
        let (n', e') = has_node next_hash next.0 in
        (next_hash, e' ∙ sym (ap (λ o. some (node_at o)) e') ∙ sym (get_node-next_hash p) ∙ e, next)
  ]

  -- The node of the next virtual node is given.
  pub IsNext→get_node :
      (v : ℕ) (n : Str)
      → GoMap.get ℕ_discrete m.virtual_nodes v ≡ some n
      → IsNext m.virtual_nodes hash v
      → get_node_for_hash m hash ≡ some n
  unfolding elem
  IsNext→get_node v n e next = elim (dec_lt 0 (length l)) [
    | no p ↦ absurd (p (elem_pos l v (hashes v ∙ next.0)))
    | yes p ↦
        let u = IsNext-unique m.virtual_nodes hash next_hash v (next_hash-IsNext p) next in
        get_node-next_hash p
        ∙ ap (λ w. some (node_at (GoMap.get ℕ_discrete m.virtual_nodes w))) u
        ∙ ap (λ o. some (node_at o)) e
  ]

  -- On a ring that keeps the invariant, `GetNodeForHash` gives a node exactly if it is the node of
  -- the next virtual node: the least one whose hash is not below the given one or, where all are
  -- below, the least of all.
  pub get_node_for_hash-IsNext :
      (n : Str)
      → (get_node_for_hash m hash ≡ some n) ↔ (
          (v : ℕ) × (GoMap.get ℕ_discrete m.virtual_nodes v ≡ some n)
          × IsNext m.virtual_nodes hash v)
  get_node_for_hash-IsNext n = (get_node→IsNext n, λ p. IsNext→get_node p.0 n p.1 p.2)

  pub get_node-some :
      (w : ℕ) → has m.virtual_nodes w ≡ true → (n : Str) × (get_node_for_hash m hash ≡ some n)
  unfolding elem
  get_node-some w h =
      let p : 0 < length l = elem_pos l w (hashes w ∙ h) in
      (node_at (GoMap.get ℕ_discrete m.virtual_nodes next_hash), get_node-next_hash p)
