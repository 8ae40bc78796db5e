-- ===== src/Service/Nonce/Between.antt =====
-- A nonce that was taken, and other nonces that come before it comes again.
use tokmesh_go.Base.{
  ℕ, ◌-◌, ◌+◌, ◌≡◌, ◌≢◌, ◌<◌, refl, sym, ◌∙◌, subst, Bool, true, false, Option, none, some, List,
  [], ◌∷◌, length, arith, Option-cases, Bool-cases, inl, inr,
}
use tokmesh_go.Domain.Str.{Str, str_dec}
use tokmesh_go.GoMap
use tokmesh_go.Service.Nonce.{
  NonceCache, remove, move_to_front, cleanup_expired, push, add_locked, add_if_absent, is_stale,
}
use tokmesh_go.Service.Nonce.Depth.{
  IsNear, cleanup-IsNear, evict-IsNear, push-IsNear, move_to_front-IsNear, remove-IsNear,
}
use tokmesh_go.Service.Nonce.Evict.{trans-IsKept, remove-IsKept, evict_total}
use tokmesh_go.Service.Nonce.Replay.{
  IsSound, cleanup_expired-IsKept, kept-IsSound, add_locked-evict, push-IsAdded, absent-case,
  stale-case, seen-case, get-remove_self, move_to_front-IsSound, taken,
}

-- The calls of `AddIfAbsent` with these times and nonces, one after the other.
abbrev pub perform : ℕ → NonceCache → List (ℕ × Str) → Option NonceCache
perform fuel c [] = some c
perform fuel c ((now, k) ∷ calls) = elim (add_if_absent fuel now c k) [
  | none ↦ none
  | some r ↦ perform fuel r.0 calls
]

module _ (nonce : Str) (created : ℕ) where
  -- Calls with other nonces, within the time to live.
  abbrev pub AreBetween : ℕ → List (ℕ × Str) → Type 0
  AreBetween ttl [] = Unit
  AreBetween ttl ((now, k) ∷ calls) = (k ≢ nonce) × (now - created < ttl) × AreBetween ttl calls

  -- What a call with another nonce leaves.
  record IsStep (d : ℕ) (c r : NonceCache) : Type 0 where
    sound : IsSound r
    same_ttl : r.ttl ≡ c.ttl
    same_capacity : r.capacity ≡ c.capacity
    near : IsNear nonce created (d + 1) r

  module _ (fuel now d : ℕ) (k : Str) (other : k ≢ nonce) where
    locked-IsStep :
        (c : NonceCache)
        → IsSound c
        → length c.order < fuel
        → now - created < c.ttl
        → d + 1 < c.capacity
        → IsNear nonce created d c
        → GoMap.get str_dec c.items k ≡ none
        → (r : NonceCache) × (add_locked fuel now c k ≡ some r) × IsStep d c r
    unfolding push
    locked-IsStep c h enough young room n absent =
        let cleaned = cleanup_expired-IsKept now c h.coherent in
        let sound = kept-IsSound c (cleanup_expired now c) h cleaned in
        let (r, left, free, kept) =
          evict_total fuel (cleanup_expired now c) cleaned.coherent sound.positive
            (ground (arith, cleaned.smaller, enough)) in
        let all = trans-IsKept c (cleanup_expired now c) r cleaned kept in
        let short : length r.order < c.capacity = ground (arith, free, cleaned.same_capacity) in
        let fits : d + 1 < (cleanup_expired now c).capacity =
          ground (arith, room, cleaned.same_capacity) in
        let added = push-IsAdded now c k r h absent short all in
        (
          push now k r,
          unfold push in add_locked-evict fuel now c k r absent left,
          record {
            sound = unfold push in added.sound;
            same_ttl = all.same_ttl;
            same_capacity = all.same_capacity;
            near =
                unfold push in
                push-IsNear nonce now created d r k other (all.absent k absent) (
                  evict-IsNear nonce fuel created d (cleanup_expired now c) r fits
                    (cleanup-IsNear nonce now created d c young n) left);
          },
        )

    step :
        (c : NonceCache)
        → IsSound c
        → length c.order < fuel
        → now - created < c.ttl
        → d + 1 < c.capacity
        → IsNear nonce created d c
        → (r : NonceCache) × (b : Bool) × (add_if_absent fuel now c k ≡ some (r, b)) × IsStep d c r
    step c h enough young room n = elim (Option-cases (GoMap.get str_dec c.items k)) [
      | inl e ↦
          let (r, added, s) = locked-IsStep c h enough young room n e in
          (r, true, absent-case fuel now c k r e added, s)
      | inr (t, e) ↦ elim (Bool-cases (is_stale now c t)) [
        | inl stale ↦
            let removed = remove-IsKept c k h.coherent in
            let (r, added, s) =
              locked-IsStep (remove c k) (kept-IsSound c (remove c k) h removed)
                (ground (arith, removed.smaller, enough)) (ground (arith, removed.same_ttl, young))
                (ground (arith, removed.same_capacity, room))
                (remove-IsNear nonce created d c k other n) (get-remove_self c k) in
            (
              r,
              true,
              stale-case fuel now c k t r e stale added,
              record {
                sound = s.sound;
                same_ttl = s.same_ttl ∙ removed.same_ttl;
                same_capacity = s.same_capacity ∙ removed.same_capacity;
                near = s.near;
              },
            )
        | inr fresh ↦ (
          move_to_front c k t,
          false,
          seen-case fuel now c k t e fresh,
          unfold move_to_front in
              record {
                sound = move_to_front-IsSound c k t h e;
                same_ttl = refl;
                same_capacity = refl;
                near = move_to_front-IsNear nonce created t d c k other e n;
              },
        )
      ]
    ]

  -- The nonce is still there after fewer calls than the capacity.
  perform-IsNear :
      (fuel d : ℕ) (c : NonceCache) (calls : List (ℕ × Str))
      → IsSound c
      → c.capacity < fuel
      → d + length calls < c.capacity
      → AreBetween c.ttl calls
      → IsNear nonce created d c
      → (q : NonceCache) × (perform fuel c calls ≡ some q)
        × (q.ttl ≡ c.ttl)
        × (GoMap.get str_dec q.items nonce ≡ some created)
  perform-IsNear fuel d c [] h enough few between n = (c, refl, refl, n.there)
  perform-IsNear fuel d c ((now, k) ∷ calls) h enough few between n =
      let (r, b, e, s) =
        step fuel now d k between.0 c h (omega (arith, h.bounded, enough)) between.1
          (omega (arith, few)) n in
      let (q, done, ttl, there) =
        perform-IsNear fuel (d + 1) r calls s.sound (ground (arith, s.same_capacity, enough))
          (ground (arith, s.same_capacity, few))
          (subst (λ t. AreBetween t calls) (sym s.same_ttl) between.2) s.near in
      (q, ground (arith, e, done), ttl ∙ s.same_ttl, there)

-- A nonce that a coherent cache with a positive capacity and at most that many elements took,
-- given more fuel than elements, is refused when it comes again within the time to live, if fewer
-- calls than the capacity came in between, with other nonces and within the time to live, and
-- there is more fuel than the capacity. The cache keeps the time at which it took the nonce.
pub replay_refused :
    (fuel now later : ℕ) (c : NonceCache) (nonce : Str) (r : NonceCache) (calls : List (ℕ × Str))
    → IsSound c
    → length c.order < fuel
    → add_if_absent fuel now c nonce ≡ some (r, true)
    → r.capacity < fuel
    → length calls < r.capacity
    → AreBetween nonce now r.ttl calls
    → later - now < r.ttl
    → (q : NonceCache) × (perform fuel r calls ≡ some q)
      × (add_if_absent fuel later q nonce ≡ some (move_to_front q nonce now, false))
replay_refused fuel now later c nonce r calls h enough e fits few between soon =
    let a = taken fuel now c nonce r h enough e in
    let near : IsNear nonce now 0 r = record {
      coherent = a.sound.coherent;
      there = a.there refl;
      near = omega (arith, a.front refl);
    } in
    let (q, done, ttl, there) =
      perform-IsNear nonce now fuel 0 r calls a.sound fits (omega (arith, few)) between near in
    (q, done, seen-case fuel later q nonce now there (ground (arith, ttl, soon)))
