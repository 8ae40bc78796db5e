-- ===== src/Cluster/Cleanup/Blocked.antt =====
-- The cleanup of a shard waits for a lock that its own scan holds.
use tokmesh_go.Base.{
  ℕ, zero, suc, ◌+◌, ◌≡◌, ◌≤◌, ◌<◌, refl, sym, ◌∙◌, ap, subst, Bool, true, false, some, List, [],
  ◌∷◌, length, get_or, ◌==◌, if◌then◌else◌, arith, inl, inr, Bool-cases, ◌⊎◌, ℕ_discrete,
}
use tokmesh_go.Domain.Str.{Str, str_dec}
use tokmesh_go.Domain.Session.{Session}
use tokmesh_go.GoMap
use tokmesh_go.GoMap.{GoMap}
use tokmesh_go.Cmap
use tokmesh_go.Cmap.{Map, shard_index, get_shard}
use tokmesh_go.Cmap.Laws.{shard_index-lt}
use tokmesh_go.Cmap.Entries.{IsPlaced, get_or-PlacedFrom}
use tokmesh_go.Cmap.Locked.{
  Turn, goes_on, waits, holds_lock, pop_locked, range_items, range_from, range_locked,
}
use tokmesh_go.Cluster.Cleanup.{
  Cleaning, blocked, delete_session, cleanup_one, finished, cleanup_shard_data,
}

-- Each session is stored under its own ID.
abbrev pub IsNamed : Map Str Session → Type 0
IsNamed m = (k : Str) (x : Session) → Cmap.get str_dec m k ≡ some x → x.id ≡ k

module _ (accepts : Str → Bool) (shard_id : ℕ) where
  -- The session is of the shard, and the log takes its deletion.
  abbrev pub is_deleted : Session → Bool
  is_deleted x = if x.shard_id == shard_id then accepts x.id else false

  -- A turn that leaves the sessions as they are, or waits.
  abbrev IsStill : Map Str Session → Turn Cleaning → Type 0
  IsStill m r = (r ≡ waits) ⊎ ((c : Cleaning) × (r ≡ goes_on c) × (c.sessions ≡ m))

  cleanup_one-waits :
      (held : List ℕ) (c : Cleaning) (key : Str) (x : Session)
      → holds_lock held (shard_index c.sessions x.id) ≡ true
      → is_deleted x ≡ true
      → cleanup_one accepts shard_id held c key x ≡ waits
  unfolding cleanup_one delete_session pop_locked
  cleanup_one-waits held c key x h is = ground (arith, h, is)

  cleanup_one-IsStill :
      (held : List ℕ) (c : Cleaning) (key : Str) (x : Session)
      → holds_lock held (shard_index c.sessions x.id) ≡ true
      → IsStill c.sessions (cleanup_one accepts shard_id held c key x)
  unfolding cleanup_one delete_session pop_locked
  cleanup_one-IsStill held c key x h = elim (Bool-cases (x.shard_id == shard_id)) [
    | inr other ↦ inr (c, ground (arith, other), refl)
    | inl own ↦ elim (Bool-cases (accepts x.id)) [
      | inl taken ↦ inl (ground (arith, own, taken, h))
      | inr refused ↦ inr (record c { last_err = true }, ground (arith, own, refused), refl)
    ]
  ]

  abbrev scanned : List ℕ → GoMap Str Session → Cleaning → Turn Cleaning
  scanned held items c =
      range_items (cleanup_one accepts shard_id) (λ (x : Cleaning). x.sessions) held items c

  -- The lock of each session among the items is held.
  abbrev AreLocked : List ℕ → Map Str Session → GoMap Str Session → Type 0
  AreLocked held m [] = Unit
  AreLocked held m ((k, x) ∷ items) =
      (holds_lock held (shard_index m x.id) ≡ true) × AreLocked held m items

  scanned-IsStill :
      (held : List ℕ) (items : GoMap Str Session) (m : Map Str Session) (c : Cleaning)
      → AreLocked held m items
      → c.sessions ≡ m
      → IsStill m (scanned held items c)
  unfolding range_items
  scanned-IsStill held [] m c locked same = inr (c, refl, same)
  scanned-IsStill held ((k, x) ∷ items) m c locked same =
      elim (cleanup_one-IsStill held c k x
        (subst (λ n. holds_lock held (shard_index n x.id) ≡ true) (sym same) locked.0)) [
          | inl w ↦ inl (ground (arith, w))
          | inr (d, e, kept) ↦
              subst (IsStill m) (ground (arith, e))
                (scanned-IsStill held items m d locked.1 (kept ∙ same))
        ]

  first-or :
      (k : Str) (y : Session) (items : GoMap Str Session) (id : Str) (x : Session)
      → GoMap.get str_dec ((k, y) ∷ items) id ≡ some x
      → (y ≡ x) ⊎ (GoMap.get str_dec items id ≡ some x)
  unfolding GoMap.get
  first-or k y items id x e = elim (str_dec k id) [
    | yes p ↦ let same : y ≡ x = ground (arith, e, p) in inl same
    | no p ↦ let later : GoMap.get str_dec items id ≡ some x = ground (arith, e, p) in inr later
  ]

  scanned-waits :
      (held : List ℕ) (items : GoMap Str Session) (m : Map Str Session) (c : Cleaning) (id : Str)
      (x : Session)
      → AreLocked held m items
      → c.sessions ≡ m
      → GoMap.get str_dec items id ≡ some x
      → is_deleted x ≡ true
      → scanned held items c ≡ waits
  unfolding range_items GoMap.get
  scanned-waits held [] m c id x locked same e is = absurd (ground (arith, e))
  scanned-waits held ((k, y) ∷ items) m c id x locked same e is =
      let lock : holds_lock held (shard_index c.sessions y.id) ≡ true =
        subst (λ n. holds_lock held (shard_index n y.id) ≡ true) (sym same) locked.0 in
      elim (cleanup_one-IsStill held c k y lock) [
        | inl w ↦ ground (arith, w)
        | inr (d, turn, kept) ↦ elim (first-or k y items id x e) [
          | inl p ↦
              let w = cleanup_one-waits held c k y lock (ap is_deleted p ∙ is) in ground (arith, w)
          | inr later ↦
              let w = scanned-waits held items m d id x locked.1 (kept ∙ same) later is in
              ground (arith, turn, w)
        ]
      ]

  abbrev scanned_from : (count i : ℕ) → Cleaning → Turn Cleaning
  scanned_from count i c =
      range_from (cleanup_one accepts shard_id) (λ (x : Cleaning). x.sessions) [] count i c

  module _ (m : Map Str Session)
      (locked : (i : ℕ) → AreLocked (i ∷ []) m (get_or m.shards i [])) where
    scanned_from-waits :
        (count i : ℕ) (c : Cleaning) (id : Str) (x : Session)
        → c.sessions ≡ m
        → i ≤ shard_index m id
        → shard_index m id < count + i
        → Cmap.get str_dec m id ≡ some x
        → is_deleted x ≡ true
        → scanned_from count i c ≡ waits
    unfolding range_from Cmap.get get_shard
    scanned_from-waits zero i c id x same low high e is = absurd (omega (arith, low, high))
    scanned_from-waits (suc count) i c id x same low high e is =
        let here : AreLocked (i ∷ []) m (get_or c.sessions.shards i []) =
          subst (λ (n : Map Str Session). AreLocked (i ∷ []) m (get_or n.shards i [])) (sym same)
            (locked i) in
        let items : GoMap Str Session = get_or c.sessions.shards i [] in
        elim (scanned-IsStill (i ∷ []) items m c here same) [
          | inl w ↦ ground (arith, w)
          | inr (d, turn, kept) ↦ elim (ℕ_discrete i (shard_index m id)) [
            | yes p ↦
                let found : GoMap.get str_dec items id ≡ some x =
                  ap (λ (n : Map Str Session). GoMap.get str_dec (get_or n.shards i []) id) same
                  ∙ ap (λ j. GoMap.get str_dec (get_or m.shards j []) id) p
                  ∙ e in
                let w = scanned-waits (i ∷ []) items m c id x here same found is in
                ground (arith, w)
            | no p ↦
                let w =
                  scanned_from-waits count (suc i) d id x kept (omega arith) (omega arith) e is in
                ground (arith, turn, w)
          ]
        ]

  all_locked :
      (held : List ℕ) (m : Map Str Session) (items : GoMap Str Session)
      → GoMap.IsUnique str_dec items
      → ((k : Str) (x : Session)
          → GoMap.get str_dec items k ≡ some x
          → holds_lock held (shard_index m x.id) ≡ true)
      → AreLocked held m items
  unfolding GoMap.get
  all_locked held m [] unique each = tt
  all_locked held m ((k, x) ∷ items) unique each = (
    each k x (ground arith),
    all_locked held m items unique.1 (λ j y e. each j y (ground (arith, e, unique.0))),
  )

  holds_own : (i j : ℕ) → j ≡ i → holds_lock (i ∷ []) j ≡ true
  unfolding holds_lock
  holds_own i j e = ground (arith, e)

  placed-AreLocked :
      (m : Map Str Session) (i : ℕ)
      → IsPlaced str_dec m
      → IsNamed m
      → AreLocked (i ∷ []) m (get_or m.shards i [])
  unfolding Cmap.get get_shard
  placed-AreLocked m i placed ids =
      let (unique, at) = get_or-PlacedFrom str_dec (shard_index m) 0 i m.shards placed in
      all_locked (i ∷ []) m (get_or m.shards i []) unique λ k x e.
        let index : shard_index m k ≡ i = omega (arith, at k x e) in
        let there : Cmap.get str_dec m k ≡ some x =
          ap (λ j. GoMap.get str_dec (get_or m.shards j []) k) index ∙ e in
        holds_own i (shard_index m x.id) (ap (shard_index m) (ids k x there) ∙ index)

  pub cleanup-blocked :
      (m : Map Str Session) (id : Str) (x : Session)
      → Cmap.IsValid m
      → IsPlaced str_dec m
      → IsNamed m
      → Cmap.get str_dec m id ≡ some x
      → is_deleted x ≡ true
      → cleanup_shard_data accepts shard_id m ≡ blocked
  unfolding cleanup_shard_data range_locked
  cleanup-blocked m id x valid placed ids e is = ap finished (
      scanned_from-waits m (λ i. placed-AreLocked m i placed ids) (length m.shards) 0
        (record { sessions = m; deleted_count = 0; last_err = false }) id x refl (omega arith)
        (omega (arith, shard_index-lt m id valid)) e is)
