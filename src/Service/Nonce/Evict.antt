-- ===== src/Service/Nonce/Evict.antt =====
-- The loop that evicts: it ends if the capacity is positive, and never ends if it is zero.
use tokmesh_go.Base.{
  ℕ, zero, suc, ◌+◌, ◌≡◌, ◌≤◌, ◌<◌, refl, ◌∙◌, none, some, List, [], ◌∷◌, length, arith,
  Option-cases, Bool-cases, inl, inr, leb,
}
use tokmesh_go.Domain.Str.{Str, str_dec}
use tokmesh_go.GoMap
use tokmesh_go.GoMap.{GoMap}
use tokmesh_go.GoMap.Laws as MapLaws
use tokmesh_go.Service.Nonce.{NonceCache, NonceEntry, remove, evict_one, evict, back, remove_all}
use tokmesh_go.Service.Nonce.Coherent.{IsCoherent, remove-IsCoherent, evict_one-IsCoherent}

back-none : (l : List NonceEntry) → back l ≡ none → length l ≡ 0
unfolding back
back-none [] h = refl
back-none (e ∷ []) h = ground (arith, h)
back-none (e ∷ f ∷ l) h = ground (arith, back-none (f ∷ l) h)

-- Without the key of its last element a list is shorter.
length-delete-back :
    (l : List NonceEntry) (x : NonceEntry)
    → back l ≡ some x
    → length (GoMap.delete str_dec l x.0) + 1 ≤ length l
unfolding back GoMap.delete
length-delete-back [] x h = ground (arith, h)
length-delete-back ((n, t) ∷ []) x h = ground (arith, h)
length-delete-back ((n, t) ∷ f ∷ l) x h = ground (arith, length-delete-back (f ∷ l) x h)

-- What removing elements keeps.
pub record IsKept (c r : NonceCache) : Type 0 where
  pub coherent : IsCoherent r
  pub smaller : length r.order ≤ length c.order
  pub absent : (n : Str) → GoMap.get str_dec c.items n ≡ none → GoMap.get str_dec r.items n ≡ none
  pub same_capacity : r.capacity ≡ c.capacity
  pub same_ttl : r.ttl ≡ c.ttl

pub refl-IsKept : (c : NonceCache) → IsCoherent c → IsKept c c
refl-IsKept c h = record {
  coherent = h;
  smaller = omega arith;
  absent = λ n e. e;
  same_capacity = refl;
  same_ttl = refl;
}

pub trans-IsKept : (c d r : NonceCache) → IsKept c d → IsKept d r → IsKept c r
trans-IsKept c d r f g = record {
  coherent = g.coherent;
  smaller = omega (arith, f.smaller, g.smaller);
  absent = λ n e. g.absent n (f.absent n e);
  same_capacity = g.same_capacity ∙ f.same_capacity;
  same_ttl = g.same_ttl ∙ f.same_ttl;
}

pub remove-IsKept : (c : NonceCache) (nonce : Str) → IsCoherent c → IsKept c (remove c nonce)
unfolding remove
remove-IsKept c nonce h = record {
  coherent = unfold remove in remove-IsCoherent c nonce h;
  smaller = MapLaws.len-delete-le str_dec c.order nonce;
  absent = λ n e. ground (arith, MapLaws.get-delete str_dec c.items nonce n, e);
  same_capacity = refl;
  same_ttl = refl;
}

pub remove_all-IsKept : (c : NonceCache) (l : List Str) → IsCoherent c → IsKept c (remove_all c l)
unfolding remove_all
remove_all-IsKept c [] h = refl-IsKept c h
remove_all-IsKept c (nonce ∷ l) h =
    trans-IsKept c (remove c nonce) (remove_all (remove c nonce) l) (remove-IsKept c nonce h)
      (remove_all-IsKept (remove c nonce) l (remove-IsCoherent c nonce h))

evict_one-IsKept : (c : NonceCache) → IsCoherent c → IsKept c (evict_one c)
unfolding evict_one
evict_one-IsKept c h = elim (Option-cases (back c.order)) [
  | inl e ↦ rw (e, evict_one) (refl-IsKept c h)
  | inr (x, e) ↦ rw (e, evict_one) (remove-IsKept c x.0 h)
]

-- A pass of the loop makes a list that is not empty shorter.
evict_one-lt : (c : NonceCache) → 0 < length c.order → length (evict_one c).order < length c.order
unfolding evict_one remove
evict_one-lt c h = elim (Option-cases (back c.order)) [
  | inl e ↦ ground (arith, back-none c.order e)
  | inr (x, e) ↦ rw (e, evict_one) (ground (arith, length-delete-back c.order x e))
]

pub evict_one-capacity : (c : NonceCache) → (evict_one c).capacity ≡ c.capacity
unfolding evict_one remove
evict_one-capacity c = elim (Option-cases (back c.order)) [
  | inl e ↦ rw (e, evict_one) refl
  | inr (x, e) ↦ rw (e, evict_one) refl
]

-- On a coherent cache with a positive capacity, more passes than there are elements end the loop,
-- and leave room for one element.
pub evict_total :
    (fuel : ℕ) (c : NonceCache)
    → IsCoherent c
    → 0 < c.capacity
    → length c.order < fuel
    → (r : NonceCache) × (evict fuel c ≡ some r) × (length r.order < c.capacity) × IsKept c r
unfolding evict
evict_total zero c h pos enough = ground arith
evict_total (suc fuel) c h pos enough = elim (Bool-cases (leb c.capacity (length c.order))) [
  | inl e ↦
      let same = evict_one-capacity c in
      let (r, left, room, done) =
        evict_total fuel (evict_one c) (evict_one-IsCoherent c h) (ground (arith, same))
          (ground (arith, evict_one-lt c)) in
      (
        r,
        ground (arith, e, left),
        ground (arith, room, same),
        trans-IsKept c (evict_one c) r (evict_one-IsKept c h) done,
      )
  | inr e ↦ (c, ground (arith, e), ground (arith, e), refl-IsKept c h)
]

-- With the capacity zero the loop never ends, however many passes it makes.
pub evict_diverges : (fuel : ℕ) (c : NonceCache) → c.capacity ≡ 0 → evict fuel c ≡ none
unfolding evict
evict_diverges zero c h = refl
evict_diverges (suc fuel) c h =
    ground (arith, evict_diverges fuel (evict_one c) (evict_one-capacity c ∙ h))
