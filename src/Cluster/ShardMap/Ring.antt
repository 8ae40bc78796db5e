-- ===== src/Cluster/ShardMap/Ring.antt =====
-- The ring: its sorted hashes are exactly the virtual nodes, and each virtual node is at a hash of its
-- node.
use tokmesh_go.Base.{
  ℕ, zero, suc, ◌+◌, ◌≤◌, ◌<◌, ◌≡◌, ◌≢◌, ◌⊎◌, inr, refl, ◌∙◌, Bool, true, false, Option, none, some,
  [], ◌∷◌, map, length, ℕ_discrete, arith,
}
use tokmesh_go.Domain.Str.{Str}
use tokmesh_go.GoMap
use tokmesh_go.GoMap.{GoMap}
use tokmesh_go.GoMap.Laws.{get-set, get-delete, set-IsUnique, delete-IsUnique}
use tokmesh_go.Cluster.Sorted.{elem, elem-sort, IsSorted, sort-IsSorted, length-sort}
use tokmesh_go.Cluster.ShardMap.{
  ShardMap, rebuild_sorted_hashes, hash_virtual_node, put_virtual_nodes, drop_virtual_nodes,
  default_virtual_node_count,
}

abbrev pub is_some : Option Str → Bool
is_some none = false
is_some (some n) = true

-- Whether there is a virtual node at a hash.
abbrev pub has : GoMap ℕ Str → ℕ → Bool
has nodes v = is_some (GoMap.get ℕ_discrete nodes v)

elem-keys : (v : ℕ) (nodes : GoMap ℕ Str) → elem v (map (λ (e : ℕ × Str). e.0) nodes) ≡ has nodes v
unfolding elem GoMap.get
elem-keys v [] = refl
elem-keys v ((h, n) ∷ l) = ground (arith, elem-keys v l)

length-keys : (nodes : GoMap ℕ Str) → length (map (λ (e : ℕ × Str). e.0) nodes) ≡ GoMap.len nodes
length-keys [] = refl
length-keys (e ∷ l) = omega (arith, length-keys l)

module _ (sum64 : Str → ℕ) where
  -- The origin of a virtual node.
  abbrev pub HasOrigin : GoMap ℕ Str → Type 0
  HasOrigin nodes =
      (v : ℕ) (n : Str)
      → GoMap.get ℕ_discrete nodes v ≡ some n
      → (i : ℕ) × (i < default_virtual_node_count) × (v ≡ hash_virtual_node sum64 n i)

  -- The invariant of a shard map.
  pub record IsRing (m : ShardMap) : Type 0 where
    pub sorted : IsSorted m.sorted_hashes
    pub hashes : (v : ℕ) → elem v m.sorted_hashes ≡ has m.virtual_nodes v
    pub size : length m.sorted_hashes ≡ GoMap.len m.virtual_nodes
    pub unique : GoMap.IsUnique ℕ_discrete m.virtual_nodes
    pub origin : HasOrigin m.virtual_nodes

  -- A rebuilt map is a ring if its virtual nodes have their origins.
  pub rebuild-IsRing :
      (m : ShardMap)
      → m.sorted_hashes ≡ rebuild_sorted_hashes m.virtual_nodes
      → GoMap.IsUnique ℕ_discrete m.virtual_nodes
      → HasOrigin m.virtual_nodes
      → IsRing m
  unfolding rebuild_sorted_hashes
  rebuild-IsRing m e u o =
      let keys = map (λ (e : ℕ × Str). e.0) m.virtual_nodes in
      record {
        sorted = rw e (sort-IsSorted keys);
        hashes = λ v. rw e (elem-sort v keys ∙ elem-keys v m.virtual_nodes);
        size = rw e (length-sort keys ∙ length-keys m.virtual_nodes);
        unique = u;
        origin = o;
      }

  module _ (a : Str) where
    -- What a write leaves: the node's own, or what was there.
    pub get-put :
        (count i : ℕ) (nodes : GoMap ℕ Str) (v : ℕ)
        → (GoMap.get ℕ_discrete (put_virtual_nodes sum64 a count i nodes) v ≡ some a)
          ⊎ (GoMap.get ℕ_discrete (put_virtual_nodes sum64 a count i nodes) v
              ≡ GoMap.get ℕ_discrete nodes v)
    unfolding put_virtual_nodes
    get-put zero i nodes v = inr refl
    get-put (suc count) i nodes v =
        let h = hash_virtual_node sum64 a i in
        ground (
          arith,
          get-put count (i + 1) (GoMap.set ℕ_discrete nodes h a) v,
          get-set ℕ_discrete nodes h a v,
        )

    pub get-put_own :
        (count i : ℕ) (nodes : GoMap ℕ Str)
        → GoMap.get ℕ_discrete
            (put_virtual_nodes sum64 a (suc count) i nodes)
            (hash_virtual_node sum64 a i)
          ≡ some a
    unfolding put_virtual_nodes
    get-put_own count i nodes =
        let h = hash_virtual_node sum64 a i in
        ground (
          arith,
          get-put count (i + 1) (GoMap.set ℕ_discrete nodes h a) h,
          get-set ℕ_discrete nodes h a h,
        )

    pub put-HasOrigin :
        (count i : ℕ) (nodes : GoMap ℕ Str)
        → i + count ≤ default_virtual_node_count
        → HasOrigin nodes
        → HasOrigin (put_virtual_nodes sum64 a count i nodes)
    unfolding put_virtual_nodes
    put-HasOrigin zero i nodes p o = o
    put-HasOrigin (suc count) i nodes p o =
        put-HasOrigin count (i + 1) (GoMap.set ℕ_discrete nodes (hash_virtual_node sum64 a i) a)
          (omega arith)
          (λ v n e. elim (ℕ_discrete (hash_virtual_node sum64 a i) v) [
            | yes q ↦ (
              i,
              omega arith,
              ground (arith, get-set ℕ_discrete nodes (hash_virtual_node sum64 a i) a v, e, q),
            )
            | no q ↦
                o v n
                  (ground (arith, get-set ℕ_discrete nodes (hash_virtual_node sum64 a i) a v, e, q))
          ])

    pub put-IsUnique :
        (count i : ℕ) (nodes : GoMap ℕ Str)
        → GoMap.IsUnique ℕ_discrete nodes
        → GoMap.IsUnique ℕ_discrete (put_virtual_nodes sum64 a count i nodes)
    unfolding put_virtual_nodes
    put-IsUnique zero i nodes u = u
    put-IsUnique (suc count) i nodes u =
        put-IsUnique count (i + 1) _
          (set-IsUnique ℕ_discrete nodes (hash_virtual_node sum64 a i) a u)

    pub get-drop :
        (count i : ℕ) (nodes : GoMap ℕ Str) (v : ℕ)
        → (GoMap.get ℕ_discrete (drop_virtual_nodes sum64 a count i nodes) v ≡ none)
          ⊎ (GoMap.get ℕ_discrete (drop_virtual_nodes sum64 a count i nodes) v
              ≡ GoMap.get ℕ_discrete nodes v)
    unfolding drop_virtual_nodes
    get-drop zero i nodes v = inr refl
    get-drop (suc count) i nodes v =
        let h = hash_virtual_node sum64 a i in
        ground (
          arith,
          get-drop count (i + 1) (GoMap.delete ℕ_discrete nodes h) v,
          get-delete ℕ_discrete nodes h v,
        )

    pub get-drop_own :
        (count i : ℕ) (nodes : GoMap ℕ Str) (k : ℕ)
        → i ≤ k
        → k < i + count
        → GoMap.get ℕ_discrete
            (drop_virtual_nodes sum64 a count i nodes)
            (hash_virtual_node sum64 a k)
          ≡ none
    unfolding drop_virtual_nodes
    get-drop_own zero i nodes k p q = absurd (omega arith)
    get-drop_own (suc count) i nodes k p q =
        let h = hash_virtual_node sum64 a i in
        let v = hash_virtual_node sum64 a k in
        let rest = GoMap.delete ℕ_discrete nodes h in
        elim (ℕ_discrete i k) [
          | yes e ↦
              ground (arith, e, get-drop count (i + 1) rest v, get-delete ℕ_discrete nodes h v)
          | no e ↦ get-drop_own count (i + 1) rest k (omega arith) (omega arith)
        ]

    pub get-drop_ne :
        (count i : ℕ) (nodes : GoMap ℕ Str) (v : ℕ)
        → ((k : ℕ) → k < i + count → hash_virtual_node sum64 a k ≢ v)
        → GoMap.get ℕ_discrete (drop_virtual_nodes sum64 a count i nodes) v
          ≡ GoMap.get ℕ_discrete nodes v
    unfolding drop_virtual_nodes
    get-drop_ne zero i nodes v ne = refl
    get-drop_ne (suc count) i nodes v ne =
        let h = hash_virtual_node sum64 a i in
        let h_ne : h ≢ v = ne i (omega arith) in
        get-drop_ne count (i + 1) (GoMap.delete ℕ_discrete nodes h) v (λ k p. ne k (omega arith))
        ∙ ground (arith, h_ne, get-delete ℕ_discrete nodes h v)

    pub drop-IsUnique :
        (count i : ℕ) (nodes : GoMap ℕ Str)
        → GoMap.IsUnique ℕ_discrete nodes
        → GoMap.IsUnique ℕ_discrete (drop_virtual_nodes sum64 a count i nodes)
    unfolding drop_virtual_nodes
    drop-IsUnique zero i nodes u = u
    drop-IsUnique (suc count) i nodes u =
        drop-IsUnique count (i + 1) _
          (delete-IsUnique ℕ_discrete nodes (hash_virtual_node sum64 a i) u)

    pub drop-HasOrigin :
        (count i : ℕ) (nodes : GoMap ℕ Str)
        → HasOrigin nodes
        → HasOrigin (drop_virtual_nodes sum64 a count i nodes)
    drop-HasOrigin count i nodes o v n e = o v n (ground (arith, e, get-drop count i nodes v))
