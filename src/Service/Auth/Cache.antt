-- ===== src/Service/Auth/Cache.antt =====
-- `APIKeyCache` (src/internal/core/service/auth.go). The order of the list is from the most recently used; the
-- map of the code is the index of the list by the key ID, and each operation changes both together.
pub mod Laws
use tokmesh_go.Base.{
  ℕ, zero, suc, ◌+◌, ◌≡◌, ◌≤◌, ◌<◌, refl, ap, Bool, true, false, Option, none, some, List, [], ◌∷◌,
  ite, length, ltb, leb, arith, if◌then◌else◌, inl, inr, Bool-cases,
}
use tokmesh_go.Domain.Str.{Str, str_dec}
use tokmesh_go.Domain.ApiKey.{ApiKey}

-- `cacheEntry`
pub record CacheEntry : Type 0 where
  pub key_id : Str
  pub key : ApiKey
  pub expires_at : ℕ

pub record ApiKeyCache : Type 0 where
  pub order : List CacheEntry
  pub capacity : ℕ
  pub ttl : ℕ

-- `NewAPIKeyCache`; a negative capacity takes the branch of 0.
unfoldable pub new_api_key_cache : ℕ → ℕ → ApiKeyCache
new_api_key_cache capacity ttl = record {
  order = [];
  capacity = if leb capacity 0 then 10000 else capacity;
  ttl = ttl;
}

-- `c.items[keyID]`
unfoldable pub find : List CacheEntry → Str → Option CacheEntry
find [] id = none
find (x ∷ l) id = let rest = find l id in ite (str_dec x.key_id id) (some x) rest

-- `c.order.Remove(elem)` and `delete(c.items, keyID)`
unfoldable pub remove : List CacheEntry → Str → List CacheEntry
remove [] id = []
remove (x ∷ l) id = let rest = remove l id in ite (str_dec x.key_id id) l (x ∷ rest)

-- the element at the back taken out
unfoldable pub remove_back : List CacheEntry → List CacheEntry
remove_back [] = []
remove_back (x ∷ []) = []
remove_back (x ∷ y ∷ l) = x ∷ remove_back (y ∷ l)

-- the loop that evicts; each step takes one element out, so the number of elements is fuel enough
unfoldable pub evict : ℕ → ℕ → List CacheEntry → List CacheEntry
evict zero capacity l = l
evict (suc fuel) capacity l =
    let rest = evict fuel capacity (remove_back l) in if leb capacity (length l) then rest else l

-- `Get`: an entry that has expired is taken out, another one is moved to the front.
unfoldable pub get : ℕ → ApiKeyCache → Str → ApiKeyCache × Option ApiKey
get now c id = elim (find c.order id) [
  | none ↦ (c, none)
  | some x ↦
      if ltb x.expires_at now
      then (record c { order = remove c.order id }, none)
      else (record c { order = x ∷ remove c.order id }, some x.key)
]

-- `Set`
unfoldable pub set : ℕ → ApiKeyCache → Str → ApiKey → ApiKeyCache
set now c id key =
    let x : CacheEntry = record { key_id = id; key = key; expires_at = now + c.ttl } in
    elim (find c.order id) [
      | some _ ↦ record c { order = x ∷ remove c.order id }
      | none ↦ record c { order = x ∷ evict (length c.order) c.capacity c.order }
    ]

-- The caller's change of the entry that it got, which the cache shares.
unfoldable pub touch_front : ApiKeyCache → ApiKey → ApiKeyCache
touch_front c key = elim c.order [
  | [] ↦ c
  | x ∷ l ↦ record c { order = record x { key = key } ∷ l }
]

-- `Delete`
unfoldable pub delete : ApiKeyCache → Str → ApiKeyCache
delete c id = record c { order = remove c.order id }

-- `Clear`
unfoldable pub clear : ApiKeyCache → ApiKeyCache
clear c = record c { order = [] }

-- `Size`
unfoldable pub size : ApiKeyCache → ℕ
size c = length c.order
