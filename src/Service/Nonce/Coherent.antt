-- ===== src/Service/Nonce/Coherent.antt =====
-- The map and the list of a cache hold the same elements, each once.
use tokmesh_go.Base.{
  ℕ, zero, ◌≡◌, refl, sym, ◌∙◌, none, some, List, [], ◌∷◌, length, arith, Option-cases, inl, inr,
}
use tokmesh_go.Domain.Str.{Str, str_dec}
use tokmesh_go.GoMap
use tokmesh_go.GoMap.{GoMap}
use tokmesh_go.GoMap.Laws as MapLaws
use tokmesh_go.Service.Nonce.{
  NonceCache, new_nonce_cache, remove, move_to_front, remove_all, push, evict_one, back,
}

pub record IsCoherent (c : NonceCache) : Type 0 where
  pub same : (nonce : Str) → GoMap.get str_dec c.items nonce ≡ GoMap.get str_dec c.order nonce
  pub items_unique : GoMap.IsUnique str_dec c.items
  pub order_unique : GoMap.IsUnique str_dec c.order

pub new-IsCoherent : (capacity ttl : ℕ) → IsCoherent (new_nonce_cache capacity ttl)
unfolding new_nonce_cache
new-IsCoherent capacity ttl = record { same = λ n. refl; items_unique = tt; order_unique = tt }

pub remove-IsCoherent : (c : NonceCache) (nonce : Str) → IsCoherent c → IsCoherent (remove c nonce)
unfolding remove
remove-IsCoherent c nonce h = record {
  same = λ n. ground (
    arith,
    MapLaws.get-delete str_dec c.items nonce n,
    MapLaws.get-delete str_dec c.order nonce n,
    h.same n,
  );
  items_unique = MapLaws.delete-IsUnique str_dec c.items nonce h.items_unique;
  order_unique = MapLaws.delete-IsUnique str_dec c.order nonce h.order_unique;
}

get-delete_self :
    (m : GoMap Str ℕ) (nonce : Str) → GoMap.get str_dec (GoMap.delete str_dec m nonce) nonce ≡ none
get-delete_self m nonce = ground (arith, MapLaws.get-delete str_dec m nonce nonce)

pub move_to_front-IsCoherent :
    (c : NonceCache) (nonce : Str) (created : ℕ)
    → IsCoherent c
    → GoMap.get str_dec c.items nonce ≡ some created
    → IsCoherent (move_to_front c nonce created)
unfolding move_to_front GoMap.get
move_to_front-IsCoherent c nonce created h here = record {
  same = λ n. ground (arith, MapLaws.get-delete str_dec c.order nonce n, h.same n);
  items_unique = h.items_unique;
  order_unique =
      (get-delete_self c.order nonce, MapLaws.delete-IsUnique str_dec c.order nonce h.order_unique);
}

pub remove_all-IsCoherent :
    (c : NonceCache) (l : List Str) → IsCoherent c → IsCoherent (remove_all c l)
unfolding remove_all
remove_all-IsCoherent c [] h = h
remove_all-IsCoherent c (nonce ∷ l) h =
    remove_all-IsCoherent (remove c nonce) l (remove-IsCoherent c nonce h)

pub evict_one-IsCoherent : (c : NonceCache) → IsCoherent c → IsCoherent (evict_one c)
unfolding evict_one
evict_one-IsCoherent c h = elim (Option-cases (back c.order)) [
  | inl e ↦ rw (e, evict_one) h
  | inr (x, e) ↦ rw (e, evict_one) (remove-IsCoherent c x.0 h)
]

pub push-IsCoherent :
    (now : ℕ) (nonce : Str) (c : NonceCache)
    → IsCoherent c
    → GoMap.get str_dec c.items nonce ≡ none
    → IsCoherent (push now nonce c)
unfolding push GoMap.get
push-IsCoherent now nonce c h absent = record {
  same = λ n. ground (arith, MapLaws.get-set str_dec c.items nonce now n, h.same n);
  items_unique = MapLaws.set-IsUnique str_dec c.items nonce now h.items_unique;
  order_unique = (sym (h.same nonce) ∙ absent, h.order_unique);
}

-- A map that holds no key is empty.
empty_lem : (n : GoMap Str ℕ) → ((k : Str) → none ≡ GoMap.get str_dec n k) → zero ≡ length n
unfolding GoMap.get
empty_lem [] same = refl
empty_lem ((k, v) ∷ n) same = ground (arith, same k)

-- Two maps with one entry to a key that agree at every key have as many entries.
pub len-eq :
    (m n : GoMap Str ℕ)
    → GoMap.IsUnique str_dec m
    → GoMap.IsUnique str_dec n
    → ((k : Str) → GoMap.get str_dec m k ≡ GoMap.get str_dec n k)
    → length m ≡ length n
unfolding GoMap.get
len-eq [] n um un same = empty_lem n same
len-eq ((k, v) ∷ m) n um un same =
    let found : GoMap.get str_dec n k ≡ some v = ground (arith, same k) in
    let rest : length m ≡ length (GoMap.delete str_dec n k) =
      len-eq m (GoMap.delete str_dec n k) um.1 (MapLaws.delete-IsUnique str_dec n k un)
        (λ j. ground (arith, same j, MapLaws.get-delete str_dec n k j, um.0)) in
    ground (arith, MapLaws.len-delete str_dec n k v un found)

-- The map is as large as the list.
pub size-length : (c : NonceCache) → IsCoherent c → length c.items ≡ length c.order
size-length c h = len-eq c.items c.order h.items_unique h.order_unique h.same
