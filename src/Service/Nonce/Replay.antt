-- ===== src/Service/Nonce/Replay.antt =====
-- What `AddIfAbsent` promises: it ends, bounds the cache, and refuses a nonce that it took before.
use tokmesh_go.Base.{
  ℕ, ◌-◌, ◌≡◌, ◌≤◌, ◌<◌, subst, refl, sym, ◌∙◌, Bool, true, false, Option, none, some, length,
  arith, Option-cases, Bool-cases, inl, inr,
}
use mathlib.Core.List.{reverse}
use tokmesh_go.Domain.Str.{Str, str_dec}
use tokmesh_go.GoMap
use tokmesh_go.GoMap.Laws as MapLaws
use tokmesh_go.Service.Nonce.{
  NonceCache, remove, move_to_front, stale_nonces, cleanup_expired, push, evict, add_locked,
  add_if_absent, is_stale,
}
use tokmesh_go.Service.Nonce.Coherent.{IsCoherent, move_to_front-IsCoherent, push-IsCoherent}
use tokmesh_go.Service.Nonce.Depth.{depth}
use tokmesh_go.Service.Nonce.Evict.{
  IsKept, trans-IsKept, remove-IsKept, remove_all-IsKept, evict_total, evict_diverges,
}

-- A coherent cache with a positive capacity and at most that many elements.
pub record IsSound (c : NonceCache) : Type 0 where
  pub coherent : IsCoherent c
  pub positive : 0 < c.capacity
  pub bounded : length c.order ≤ c.capacity

pub kept-IsSound : (c r : NonceCache) → IsSound c → IsKept c r → IsSound r
kept-IsSound c r h k = record {
  coherent = k.coherent;
  positive = ground (arith, h.positive, k.same_capacity);
  bounded = ground (arith, h.bounded, k.smaller, k.same_capacity);
}

pub cleanup_expired-IsKept :
    (now : ℕ) (c : NonceCache) → IsCoherent c → IsKept c (cleanup_expired now c)
unfolding cleanup_expired
cleanup_expired-IsKept now c h = remove_all-IsKept c (stale_nonces now c (reverse c.order)) h

-- The new cache of a nonce that is not there: the element is in it, with the time.
pub record IsAdded (now : ℕ) (c : NonceCache) (nonce : Str) (r : NonceCache) : Type 0 where
  pub sound : IsSound r
  pub there : GoMap.get str_dec r.items nonce ≡ some now
  pub front : depth nonce r.order ≡ 0
  pub same_ttl : r.ttl ≡ c.ttl

pub push-IsAdded :
    (now : ℕ) (c : NonceCache) (nonce : Str) (r : NonceCache)
    → IsSound c
    → GoMap.get str_dec c.items nonce ≡ none
    → length r.order < c.capacity
    → IsKept c r
    → IsAdded now c nonce (push now nonce r)
unfolding push
push-IsAdded now c nonce r h absent room kept = record {
  sound = record {
    coherent = unfold push in push-IsCoherent now nonce r kept.coherent (kept.absent nonce absent);
    positive = ground (arith, kept.same_capacity, h.positive);
    bounded = ground (arith, kept.same_capacity, room);
  };
  there = ground (arith, MapLaws.get-set str_dec r.items nonce now nonce);
  front = ground arith;
  same_ttl = kept.same_ttl;
}

pub add_locked-evict :
    (fuel now : ℕ) (c : NonceCache) (nonce : Str) (r : NonceCache)
    → GoMap.get str_dec c.items nonce ≡ none
    → evict fuel (cleanup_expired now c) ≡ some r
    → add_locked fuel now c nonce ≡ some (push now nonce r)
unfolding add_locked
add_locked-evict fuel now c nonce r absent left = ground (arith, absent, left)

add_locked_new :
    (fuel now : ℕ) (c : NonceCache) (nonce : Str)
    → IsSound c
    → length c.order < fuel
    → GoMap.get str_dec c.items nonce ≡ none
    → (r : NonceCache) × (add_locked fuel now c nonce ≡ some r) × IsAdded now c nonce r
add_locked_new fuel now c nonce h enough absent =
    let cleaned = cleanup_expired-IsKept now c h.coherent in
    let sound = kept-IsSound c (cleanup_expired now c) h cleaned in
    let (r, left, room, kept) =
      evict_total fuel (cleanup_expired now c) cleaned.coherent sound.positive
        (ground (arith, cleaned.smaller, enough)) in
    (
      push now nonce r,
      add_locked-evict fuel now c nonce r absent left,
      push-IsAdded now c nonce r h absent (ground (arith, room, cleaned.same_capacity))
          (trans-IsKept c (cleanup_expired now c) r cleaned kept),
    )

-- `AddIfAbsent` in its three cases: the nonce is not there, it is stale, it was seen.
pub absent-case :
    (fuel now : ℕ) (c : NonceCache) (nonce : Str) (r : NonceCache)
    → GoMap.get str_dec c.items nonce ≡ none
    → add_locked fuel now c nonce ≡ some r
    → add_if_absent fuel now c nonce ≡ some (r, true)
unfolding add_if_absent
absent-case fuel now c nonce r e added = ground (arith, e, added)

pub stale-case :
    (fuel now : ℕ) (c : NonceCache) (nonce : Str) (created : ℕ) (r : NonceCache)
    → GoMap.get str_dec c.items nonce ≡ some created
    → is_stale now c created ≡ true
    → add_locked fuel now (remove c nonce) nonce ≡ some r
    → add_if_absent fuel now c nonce ≡ some (r, true)
unfolding add_if_absent
stale-case fuel now c nonce created r e stale added = ground (arith, e, stale, added)

pub seen-case :
    (fuel now : ℕ) (c : NonceCache) (nonce : Str) (created : ℕ)
    → GoMap.get str_dec c.items nonce ≡ some created
    → is_stale now c created ≡ false
    → add_if_absent fuel now c nonce ≡ some (move_to_front c nonce created, false)
unfolding add_if_absent
seen-case fuel now c nonce created e young = ground (arith, e, young)

pub get-remove_self :
    (c : NonceCache) (nonce : Str) → GoMap.get str_dec (remove c nonce).items nonce ≡ none
unfolding remove
get-remove_self c nonce = ground (arith, MapLaws.get-delete str_dec c.items nonce nonce)

pub move_to_front-IsSound :
    (c : NonceCache) (nonce : Str) (created : ℕ)
    → IsSound c
    → GoMap.get str_dec c.items nonce ≡ some created
    → IsSound (move_to_front c nonce created)
unfolding move_to_front
move_to_front-IsSound c nonce created h e = record {
  coherent = unfold move_to_front in move_to_front-IsCoherent c nonce created h.coherent e;
  positive = h.positive;
  bounded = ground (
    arith,
    MapLaws.len-delete str_dec c.order nonce created h.coherent.order_unique
        (sym (h.coherent.same nonce) ∙ e),
    h.bounded,
  );
}

-- The cache that `AddIfAbsent` leaves with its answer.
pub record IsAnswer (now : ℕ) (c : NonceCache) (nonce : Str) (r : NonceCache) (b : Bool)
    : Type 0 where
  pub sound : IsSound r
  pub same_ttl : r.ttl ≡ c.ttl
  pub there : b ≡ true → GoMap.get str_dec r.items nonce ≡ some now
  pub front : b ≡ true → depth nonce r.order ≡ 0

added-IsAnswer :
    (now : ℕ) (c : NonceCache) (nonce : Str) (r : NonceCache)
    → IsAdded now c nonce r
    → IsAnswer now c nonce r true
added-IsAnswer now c nonce r h = record {
  sound = h.sound;
  same_ttl = h.same_ttl;
  there = λ e. h.there;
  front = λ e. h.front;
}

remove_ttl : (c : NonceCache) (nonce : Str) → (remove c nonce).ttl ≡ c.ttl
unfolding remove
remove_ttl c nonce = refl

seen-IsAnswer :
    (now : ℕ) (c : NonceCache) (nonce : Str) (created : ℕ)
    → IsSound c
    → GoMap.get str_dec c.items nonce ≡ some created
    → IsAnswer now c nonce (move_to_front c nonce created) false
unfolding move_to_front
seen-IsAnswer now c nonce created h e = record {
  sound = unfold move_to_front in move_to_front-IsSound c nonce created h e;
  same_ttl = refl;
  there = λ f. ground (arith, f);
  front = λ f. ground (arith, f);
}

answer :
    (fuel now : ℕ) (c : NonceCache) (nonce : Str)
    → IsSound c
    → length c.order < fuel
    → (r : NonceCache) × (b : Bool) × (add_if_absent fuel now c nonce ≡ some (r, b))
      × IsAnswer now c nonce r b
answer fuel now c nonce h enough = elim (Option-cases (GoMap.get str_dec c.items nonce)) [
  | inl e ↦
      let (r, added, new) = add_locked_new fuel now c nonce h enough e in
      (r, true, absent-case fuel now c nonce r e added, added-IsAnswer now c nonce r new)
  | inr (created, e) ↦ elim (Bool-cases (is_stale now c created)) [
    | inl stale ↦
        let removed = remove-IsKept c nonce h.coherent in
        let (r, added, new) =
          add_locked_new fuel now (remove c nonce) nonce (kept-IsSound c (remove c nonce) h removed)
            (ground (arith, removed.smaller, enough)) (get-remove_self c nonce) in
        (
          r,
          true,
          stale-case fuel now c nonce created r e stale added,
          record {
            sound = new.sound;
            same_ttl = new.same_ttl ∙ remove_ttl c nonce;
            there = λ f. new.there;
            front = λ f. new.front;
          },
        )
    | inr young ↦ (
      move_to_front c nonce created,
      false,
      seen-case fuel now c nonce created e young,
      seen-IsAnswer now c nonce created h e,
    )
  ]
]

-- On a coherent cache with a positive capacity and at most that many elements, given more fuel
-- than elements, `AddIfAbsent` ends, and leaves such a cache.
pub add_if_absent_total :
    (fuel now : ℕ) (c : NonceCache) (nonce : Str)
    → IsSound c
    → length c.order < fuel
    → (r : NonceCache) × (b : Bool) × (add_if_absent fuel now c nonce ≡ some (r, b)) × IsSound r
add_if_absent_total fuel now c nonce h enough =
    let (r, b, e, a) = answer fuel now c nonce h enough in (r, b, e, a.sound)

same-IsAnswer :
    (now : ℕ) (c : NonceCache) (nonce : Str) (s r : NonceCache) (b : Bool)
    → ◌≡◌ {A = Option (NonceCache × Bool)} (some (s, b)) (some (r, true))
    → IsAnswer now c nonce s b
    → IsAnswer now c nonce r true
same-IsAnswer now c nonce s r false e a = ground (arith, e)
same-IsAnswer now c nonce s r true e a =
    let same : s ≡ r = ground (arith, e) in subst (λ x. IsAnswer now c nonce x true) same a

pub taken :
    (fuel now : ℕ) (c : NonceCache) (nonce : Str) (r : NonceCache)
    → IsSound c
    → length c.order < fuel
    → add_if_absent fuel now c nonce ≡ some (r, true)
    → IsAnswer now c nonce r true
taken fuel now c nonce r h enough e =
    let (s, b, f, a) = answer fuel now c nonce h enough in
    same-IsAnswer now c nonce s r b (sym f ∙ e) a

-- A nonce that was taken is refused if the next call brings it again within the time to live.
pub refused_at_once :
    (fuel now later : ℕ) (c : NonceCache) (nonce : Str) (r : NonceCache)
    → IsSound c
    → length c.order < fuel
    → add_if_absent fuel now c nonce ≡ some (r, true)
    → later - now < c.ttl
    → add_if_absent fuel later r nonce ≡ some (move_to_front r nonce now, false)
refused_at_once fuel now later c nonce r h enough e soon =
    let a = taken fuel now c nonce r h enough e in
    seen-case fuel later r nonce now (a.there refl) (ground (arith, a.same_ttl, soon))

-- On a coherent cache with the capacity zero, `AddIfAbsent` of a nonce that is not there never
-- ends, whatever the fuel.
pub add_if_absent_diverges :
    (fuel now : ℕ) (c : NonceCache) (nonce : Str)
    → IsCoherent c
    → c.capacity ≡ 0
    → GoMap.get str_dec c.items nonce ≡ none
    → add_if_absent fuel now c nonce ≡ none
unfolding add_if_absent add_locked
add_if_absent_diverges fuel now c nonce h zero_capacity e =
    let cleaned = cleanup_expired-IsKept now c h in
    ground (
      arith,
      e,
      evict_diverges fuel (cleanup_expired now c) (cleaned.same_capacity ∙ zero_capacity),
    )
