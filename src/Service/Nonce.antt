-- ===== src/Service/Nonce.antt =====
-- `NonceCache` (src/internal/core/service/token.go): a bounded cache of the nonces seen. An element
-- of the list `order` is its nonce and its time of creation, most recently used first; `items` maps
-- a nonce to its element. The clock is in nanoseconds and does not run backwards.
pub mod Coherent
pub mod Depth
pub mod Evict
pub mod Replay
pub mod Between
mod Tests
use tokmesh_go.Base.{
  ℕ, zero, suc, ◌-◌, ◌≡◌, ◌≤◌, Bool, true, false, Option, none, some, List, [], ◌∷◌, ◌++◌, leb, ltb,
  ◌==◌, length, if◌then◌else◌,
}
use mathlib.Core.List.{reverse}
use tokmesh_go.Domain.Str.{Str, str_dec}
use tokmesh_go.GoMap
use tokmesh_go.GoMap.{GoMap}

-- `nonceEntry`: the nonce, and when it was created.
abbrev pub NonceEntry : Type 0
NonceEntry = Str × ℕ

pub record NonceCache : Type 0 where
  pub items : GoMap Str ℕ
  pub order : List NonceEntry
  pub capacity : ℕ
  pub ttl : ℕ

-- `NewNonceCache`
unfoldable pub new_nonce_cache : ℕ → ℕ → NonceCache
new_nonce_cache capacity ttl = record { items = []; order = []; capacity = capacity; ttl = ttl }

-- `order.Remove(elem)` and `delete(items, nonce)`
unfoldable pub remove : NonceCache → Str → NonceCache
remove c nonce = record c {
  items = GoMap.delete str_dec c.items nonce;
  order = GoMap.delete str_dec c.order nonce;
}

-- `order.MoveToFront(elem)`
unfoldable pub move_to_front : NonceCache → Str → ℕ → NonceCache
move_to_front c nonce created = record c {
  order = (nonce, created) ∷ GoMap.delete str_dec c.order nonce;
}

-- `time.Since(entry.createdAt) >= c.ttl`
abbrev pub is_stale : ℕ → NonceCache → ℕ → Bool
is_stale now c created = leb c.ttl (now - created)

-- `order.Back()`
unfoldable pub back : List NonceEntry → Option NonceEntry
back [] = none
back (e ∷ []) = some e
back (e ∷ f ∷ l) = back (f ∷ l)

-- the first loop of `cleanupExpiredLocked`, from the back of the list on
unfoldable pub stale_nonces : ℕ → NonceCache → List NonceEntry → List Str
stale_nonces now c [] = []
stale_nonces now c ((nonce, created) ∷ l) =
    let rest = stale_nonces now c l in if is_stale now c created then nonce ∷ rest else rest

unfoldable pub remove_all : NonceCache → List Str → NonceCache
remove_all c [] = c
remove_all c (nonce ∷ l) = remove_all (remove c nonce) l

-- `cleanupExpiredLocked`
unfoldable pub cleanup_expired : ℕ → NonceCache → NonceCache
cleanup_expired now c = remove_all c (stale_nonces now c (reverse c.order))

-- the body of the loop that evicts
unfoldable pub evict_one : NonceCache → NonceCache
evict_one c = elim (back c.order) [ none ↦ c | some oldest ↦ remove c oldest.0 ]

-- `for c.order.Len() >= c.capacity`; `none` means that the fuel ran out.
unfoldable pub evict : ℕ → NonceCache → Option NonceCache
evict zero c = none
evict (suc fuel) c =
    let rest = evict fuel (evict_one c) in if leb c.capacity (length c.order) then rest else some c

-- `PushFront`, and the new element in the map
unfoldable pub push : ℕ → Str → NonceCache → NonceCache
push now nonce c = record c {
  items = GoMap.set str_dec c.items nonce now;
  order = (nonce, now) ∷ c.order;
}

-- `addLocked`
unfoldable pub add_locked : ℕ → ℕ → NonceCache → Str → Option NonceCache
add_locked fuel now c nonce = elim (GoMap.get str_dec c.items nonce) [
  | some created ↦ some (move_to_front c nonce created)
  | none ↦ elim (evict fuel (cleanup_expired now c)) [
    | none ↦ none
    | some rest ↦ some (push now nonce rest)
  ]
]

unfoldable pub contains : ℕ → NonceCache → Str → NonceCache × Bool
contains now c nonce = elim (GoMap.get str_dec c.items nonce) [
  | none ↦ (c, false)
  | some created ↦
      if is_stale now c created
      then (remove c nonce, false)
      else (move_to_front c nonce created, true)
]

abbrev pub with_true : Option NonceCache → Option (NonceCache × Bool)
with_true none = none
with_true (some c) = some (c, true)

unfoldable pub add_if_absent : ℕ → ℕ → NonceCache → Str → Option (NonceCache × Bool)
add_if_absent fuel now c nonce = elim (GoMap.get str_dec c.items nonce) [
  | none ↦ with_true (add_locked fuel now c nonce)
  | some created ↦
      if is_stale now c created
      then with_true (add_locked fuel now (remove c nonce) nonce)
      else some (move_to_front c nonce created, false)
]

-- `Size` and `Clear`
unfoldable pub size : NonceCache → ℕ
size c = GoMap.len c.items

unfoldable pub clear : NonceCache → NonceCache
clear c = record c { items = []; order = [] }
