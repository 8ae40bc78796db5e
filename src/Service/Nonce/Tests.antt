-- ===== src/Service/Nonce/Tests.antt =====
-- Runs of the cache, and instances of its theorems.
use tokmesh_go.Base.{
  ◌≡◌, ◌≢◌, ◌<◌, refl, Bool, true, false, none, some, [], ◌∷◌, length, arith, ℕ_discrete,
}
use tokmesh_go.Domain.Str.{str_dec, bytes}
use tokmesh_go.GoMap
use tokmesh_go.Service.Nonce
use tokmesh_go.Service.Nonce.{NonceCache, new_nonce_cache, move_to_front, add_if_absent, size}
use tokmesh_go.Service.Nonce.Coherent.{new-IsCoherent}
use tokmesh_go.Service.Nonce.Between.{perform, replay_refused}
use tokmesh_go.Service.Nonce.Replay.{IsSound, add_if_absent_total, add_if_absent_diverges}

unfoldable program : Unit {0}
unfolding Nonce.new_nonce_cache Nonce.remove Nonce.move_to_front Nonce.back Nonce.stale_nonces
    Nonce.remove_all Nonce.cleanup_expired Nonce.evict_one Nonce.evict Nonce.push Nonce.add_locked
    Nonce.contains Nonce.add_if_absent Nonce.size Nonce.clear GoMap.get GoMap.set GoMap.delete
    str_dec ℕ_discrete
program = tt

abbrev blank : NonceCache
blank = new_nonce_cache 2 60

blank-IsSound : IsSound blank
unfolding new_nonce_cache
blank-IsSound = record {
  coherent = unfold new_nonce_cache in new-IsCoherent 2 60;
  positive = omega arith;
  bounded = omega arith;
}

abbrev one_nonce : NonceCache
one_nonce = record {
  items = (bytes "a", 1000) ∷ [];
  order = (bytes "a", 1000) ∷ [];
  capacity = 2;
  ttl = 60;
}

-- The third nonce evicts the least recently used one, `a`.
evicts_oldest :
    add_if_absent 5 1002
      (record {
        items = (bytes "a", 1000) ∷ (bytes "b", 1001) ∷ [];
        order = (bytes "b", 1001) ∷ (bytes "a", 1000) ∷ [];
        capacity = 2;
        ttl = 60;
      })
      (bytes "c")
    ≡ some (
      record {
        items = (bytes "b", 1001) ∷ (bytes "c", 1002) ∷ [];
        order = (bytes "c", 1002) ∷ (bytes "b", 1001) ∷ [];
        capacity = 2;
        ttl = 60;
      },
      true,
    )
unfolding program
evicts_oldest = refl

first_add : add_if_absent 5 1000 blank (bytes "a") ≡ some (one_nonce, true)
unfolding program
first_add = refl

blank-length : length blank.order < 5
unfolding new_nonce_cache
blank-length = omega arith

add_if_absent_total_example :
    (r : NonceCache) × (b : Bool) × (add_if_absent 5 1000 blank (bytes "a") ≡ some (r, b))
    × IsSound r
add_if_absent_total_example =
    add_if_absent_total 5 1000 blank (bytes "a") blank-IsSound blank-length

b_other : bytes "b" ≢ bytes "a"
b_other e = ground (arith, e)

replay_refused_example :
    (q : NonceCache) × (perform 5 one_nonce ((1030, bytes "b") ∷ []) ≡ some q)
    × (add_if_absent 5 1059 q (bytes "a") ≡ some (move_to_front q (bytes "a") 1000, false))
replay_refused_example =
    replay_refused 5 1000 1059 blank (bytes "a") one_nonce ((1030, bytes "b") ∷ []) blank-IsSound
      blank-length first_add (omega arith) (omega arith) (b_other, omega arith, tt) (omega arith)

-- as many other nonces as the capacity put it out, and it is taken again
taken_again :
    (q : NonceCache) × (perform 5 one_nonce ((1010, bytes "b") ∷ (1020, bytes "c") ∷ []) ≡ some q)
    × (GoMap.get str_dec q.items (bytes "a") ≡ none)
unfolding program
taken_again = (_, refl, refl)

abbrev no_room : NonceCache
no_room = new_nonce_cache 0 60

no_capacity : no_room.capacity ≡ 0
unfolding new_nonce_cache
no_capacity = refl

absent : GoMap.get str_dec no_room.items (bytes "a") ≡ none
unfolding program
absent = refl

add_if_absent_diverges_example : add_if_absent 1000 1000 no_room (bytes "a") ≡ none
add_if_absent_diverges_example =
    add_if_absent_diverges 1000 1000 no_room (bytes "a") (new-IsCoherent 0 60) no_capacity absent
