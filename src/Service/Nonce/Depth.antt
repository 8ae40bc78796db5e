-- ===== src/Service/Nonce/Depth.antt =====
-- How far an element is from the front of the list, and that it stays in the cache while it is near
-- enough to the front and young.
use tokmesh_go.Base.{
  ℕ, zero, suc, ◌-◌, ◌+◌, ◌≡◌, ◌≢◌, ◌≤◌, ◌<◌, sym, ◌∙◌, ap, subst, none, some, List, [], ◌∷◌,
  length, arith, ite, Option-cases, Bool-cases, inl, inr, leb,
}
use mathlib.Core.List.{reverse, reverse_aux}
use tokmesh_go.Domain.Str.{Str, str_dec}
use tokmesh_go.GoMap
use tokmesh_go.GoMap.{GoMap}
use tokmesh_go.GoMap.Laws as MapLaws
use tokmesh_go.Service.Nonce.{
  NonceCache, NonceEntry, remove, move_to_front, remove_all, stale_nonces, cleanup_expired, push,
  evict_one, evict, back, is_stale,
}
use tokmesh_go.Service.Nonce.Coherent.{
  IsCoherent, remove-IsCoherent, push-IsCoherent, move_to_front-IsCoherent,
}
use tokmesh_go.Service.Nonce.Evict.{evict_one-capacity}

module _ (nonce : Str) where
  -- The number of elements in front of the nonce.
  abbrev pub depth : List NonceEntry → ℕ
  depth [] = 0
  depth ((k, t) ∷ l) = ite (str_dec k nonce) 0 (depth l + 1)

  depth-delete-le :
      (l : List NonceEntry) (k : Str) → k ≢ nonce → depth (GoMap.delete str_dec l k) ≤ depth l
  unfolding GoMap.delete
  depth-delete-le [] k h = omega arith
  depth-delete-le ((j, t) ∷ l) k h =
      let rest = depth-delete-le l k h in
      elim (str_dec j k) [
        | yes p ↦ elim (str_dec j nonce) [
          | yes q ↦ absurd (h (sym p ∙ q))
          | no q ↦ ground (arith, p, q, rest)
        ]
        | no p ↦ ground (arith, p, rest)
      ]

  -- The last element, if it is the nonce, has all others in front.
  depth-back :
      (l : List NonceEntry) (x : NonceEntry)
      → GoMap.IsUnique str_dec l
      → back l ≡ some x
      → x.0 ≡ nonce
      → (depth l + 1 ≡ length l) × (GoMap.get str_dec l nonce ≢ none)
  unfolding back GoMap.get
  depth-back [] x u e same = absurd (ground (arith, e))
  depth-back ((k, t) ∷ []) x u e same = (ground (arith, e, same), λ n. ground (arith, e, same, n))
  depth-back ((k, t) ∷ f ∷ l) x u e same =
      let (count, there) = depth-back (f ∷ l) x u.1 e same in
      elim (str_dec k nonce) [
        | yes p ↦ absurd (there (ap (GoMap.get str_dec (f ∷ l)) (sym p) ∙ u.0))
        | no p ↦ (ground (arith, p, count), λ n. there (ground (arith, p, n)))
      ]

  -- Each entry of the nonce has the time.
  abbrev pub HasTime : ℕ → List NonceEntry → Type 0
  HasTime created [] = Unit
  HasTime created ((k, t) ∷ l) = (k ≡ nonce → t ≡ created) × HasTime created l

  abbrev pub Avoids : List Str → Type 0
  Avoids [] = Unit
  Avoids (k ∷ l) = (k ≢ nonce) × Avoids l

  stale-Avoids :
      (now created : ℕ) (c : NonceCache) (l : List NonceEntry)
      → now - created < c.ttl
      → HasTime created l
      → Avoids (stale_nonces now c l)
  unfolding stale_nonces
  stale-Avoids now created c [] young h = tt
  stale-Avoids now created c ((k, t) ∷ l) young h =
      let rest = stale-Avoids now created c l young h.1 in
      elim (Bool-cases (is_stale now c t)) [
        | inl e ↦
            let both : stale_nonces now c ((k, t) ∷ l) ≡ k ∷ stale_nonces now c l =
              ground (arith, e) in
            let other : k ≢ nonce = λ p. ground (arith, h.0 p, e, young) in
            subst Avoids (sym both) (other, rest)
        | inr e ↦
            let skip : stale_nonces now c ((k, t) ∷ l) ≡ stale_nonces now c l = ground (arith, e) in
            subst Avoids (sym skip) rest
      ]

  reverse_aux-HasTime :
      (created : ℕ) (l m : List NonceEntry)
      → HasTime created l
      → HasTime created m
      → HasTime created (reverse_aux l m)
  reverse_aux-HasTime created [] m h g = g
  reverse_aux-HasTime created (e ∷ l) m h g = reverse_aux-HasTime created l (e ∷ m) h.1 (h.0, g)

  absent-HasTime :
      (created : ℕ) (l : List NonceEntry) → GoMap.get str_dec l nonce ≡ none → HasTime created l
  unfolding GoMap.get
  absent-HasTime created [] e = tt
  absent-HasTime created ((k, t) ∷ l) e = (
    λ p. absurd (ground (arith, e, p)),
    absent-HasTime created l (elim (str_dec k nonce) [
      | yes p ↦ absurd (ground (arith, e, p))
      | no p ↦ ground (arith, e, p)
    ]),
  )

  get-HasTime :
      (created : ℕ) (l : List NonceEntry)
      → GoMap.IsUnique str_dec l
      → GoMap.get str_dec l nonce ≡ some created
      → HasTime created l
  unfolding GoMap.get
  get-HasTime created [] u e = tt
  get-HasTime created ((k, t) ∷ l) u e = elim (str_dec k nonce) [
    | yes p ↦ (
      λ q. ground (arith, e, p),
      absent-HasTime created l (ap (GoMap.get str_dec l) (sym p) ∙ u.0),
    )
    | no p ↦ (λ q. absurd (p q), get-HasTime created l u.1 (ground (arith, e, p)))
  ]

  -- The nonce is in the cache with its time, and at most so many elements are in front of it.
  pub record IsNear (created d : ℕ) (c : NonceCache) : Type 0 where
    pub coherent : IsCoherent c
    pub there : GoMap.get str_dec c.items nonce ≡ some created
    pub near : depth c.order ≤ d

  pub remove-IsNear :
      (created d : ℕ) (c : NonceCache) (k : Str)
      → k ≢ nonce
      → IsNear created d c
      → IsNear created d (remove c k)
  unfolding remove
  remove-IsNear created d c k h n = record {
    coherent = unfold remove in remove-IsCoherent c k n.coherent;
    there = ground (arith, MapLaws.get-delete str_dec c.items k nonce, h, n.there);
    near = omega (arith, depth-delete-le c.order k h, n.near);
  }

  remove_all-IsNear :
      (created d : ℕ) (c : NonceCache) (l : List Str)
      → Avoids l
      → IsNear created d c
      → IsNear created d (remove_all c l)
  unfolding remove_all
  remove_all-IsNear created d c [] h n = n
  remove_all-IsNear created d c (k ∷ l) h n =
      remove_all-IsNear created d (remove c k) l h.1 (remove-IsNear created d c k h.0 n)

  pub cleanup-IsNear :
      (now created d : ℕ) (c : NonceCache)
      → now - created < c.ttl
      → IsNear created d c
      → IsNear created d (cleanup_expired now c)
  unfolding cleanup_expired
  cleanup-IsNear now created d c young n =
      let at =
        get-HasTime created c.order n.coherent.order_unique
          (sym (n.coherent.same nonce) ∙ n.there) in
      remove_all-IsNear created d c (stale_nonces now c (reverse c.order))
        (stale-Avoids now created c (reverse c.order) young
          (reverse_aux-HasTime created c.order [] at tt))
        n

  evict_one-IsNear :
      (created d : ℕ) (c : NonceCache)
      → d + 1 < length c.order
      → IsNear created d c
      → IsNear created d (evict_one c)
  unfolding evict_one
  evict_one-IsNear created d c long n = elim (Option-cases (back c.order)) [
    | inl e ↦ rw (e, evict_one) n
    | inr (x, e) ↦
        rw (e, evict_one)
          (remove-IsNear created d c x.0
            (λ same.
              ground (arith, (depth-back c.order x n.coherent.order_unique e same).0, n.near, long))
            n)
  ]

  pub evict-IsNear :
      (fuel created d : ℕ) (c r : NonceCache)
      → d + 1 < c.capacity
      → IsNear created d c
      → evict fuel c ≡ some r
      → IsNear created d r
  unfolding evict
  evict-IsNear zero created d c r room n e = absurd (ground (arith, e))
  evict-IsNear (suc fuel) created d c r room n e =
      elim (Bool-cases (leb c.capacity (length c.order))) [
        | inl full ↦
            evict-IsNear fuel created d (evict_one c) r (ground (arith, evict_one-capacity c, room))
              (evict_one-IsNear created d c (ground (arith, full, room)) n)
              (ground (arith, full, e))
        | inr free ↦ let same : c ≡ r = ground (arith, free, e) in subst (IsNear created d) same n
      ]

  pub push-IsNear :
      (now created d : ℕ) (c : NonceCache) (k : Str)
      → k ≢ nonce
      → GoMap.get str_dec c.items k ≡ none
      → IsNear created d c
      → IsNear created (d + 1) (push now k c)
  unfolding push
  push-IsNear now created d c k h absent n = record {
    coherent = unfold push in push-IsCoherent now k c n.coherent absent;
    there = ground (arith, MapLaws.get-set str_dec c.items k now nonce, h, n.there);
    near = ground (arith, h, n.near);
  }

  pub move_to_front-IsNear :
      (created t d : ℕ) (c : NonceCache) (k : Str)
      → k ≢ nonce
      → GoMap.get str_dec c.items k ≡ some t
      → IsNear created d c
      → IsNear created (d + 1) (move_to_front c k t)
  unfolding move_to_front
  move_to_front-IsNear created t d c k h e n = record {
    coherent = unfold move_to_front in move_to_front-IsCoherent c k t n.coherent e;
    there = n.there;
    near = ground (arith, h, depth-delete-le c.order k h, n.near);
  }
