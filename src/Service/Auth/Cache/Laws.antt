-- ===== src/Service/Auth/Cache/Laws.antt =====
-- The cache of API keys keeps one entry to a key and stays within its capacity.
use tokmesh_go.Base.{
  ℕ, zero, suc, ◌≡◌, ◌≤◌, ◌<◌, refl, ◌∙◌, ap, none, some, List, [], ◌∷◌, ite, length, ltb, leb,
  arith, inl, inr, Bool-cases, Option-cases,
}
use tokmesh_go.Domain.Str.{Str, str_dec}
use tokmesh_go.Domain.ApiKey.{ApiKey}
use tokmesh_go.Service.Auth.Cache.{
  CacheEntry, ApiKeyCache, find, remove, remove_back, evict, get, set, delete, clear,
  new_api_key_cache,
}

-- One entry to a key.
abbrev pub IsUnique : List CacheEntry → Type 0
IsUnique [] = Unit
IsUnique (x ∷ l) = (find l x.key_id ≡ none) × IsUnique l

pub find-remove :
    (l : List CacheEntry) (id j : Str)
    → IsUnique l
    → find (remove l id) j ≡ ite (str_dec id j) none (find l j)
unfolding find remove
find-remove [] id j u = ground arith
find-remove (x ∷ l) id j u = ground (arith, find-remove l id j u.1, u.0)

find-remove-none :
    (l : List CacheEntry) (id j : Str) → find l j ≡ none → find (remove l id) j ≡ none
unfolding find remove
find-remove-none [] id j h = refl
find-remove-none (x ∷ l) id j h = ground (arith, find-remove-none l id j, h)

pub remove-IsUnique : (l : List CacheEntry) (id : Str) → IsUnique l → IsUnique (remove l id)
unfolding remove
remove-IsUnique [] id u = tt
remove-IsUnique (x ∷ l) id u =
    elim (str_dec x.key_id id) as (λ d. IsUnique (ite d l (x ∷ remove l id))) [
      | yes p ↦ u.1
      | no p ↦ (find-remove-none l id x.key_id u.0, remove-IsUnique l id u.1)
    ]

find-remove_back : (l : List CacheEntry) (j : Str) → find l j ≡ none → find (remove_back l) j ≡ none
unfolding find remove_back
find-remove_back [] j h = refl
find-remove_back (x ∷ []) j h = refl
find-remove_back (x ∷ y ∷ l) j h = ground (arith, find-remove_back (y ∷ l) j, h)

remove_back-IsUnique : (l : List CacheEntry) → IsUnique l → IsUnique (remove_back l)
unfolding remove_back
remove_back-IsUnique [] u = tt
remove_back-IsUnique (x ∷ []) u = tt
remove_back-IsUnique (x ∷ y ∷ l) u =
    (find-remove_back (y ∷ l) x.key_id u.0, remove_back-IsUnique (y ∷ l) u.1)

length-remove_back :
    (x : CacheEntry) (l : List CacheEntry) → suc (length (remove_back (x ∷ l))) ≡ length (x ∷ l)
unfolding remove_back
length-remove_back x [] = refl
length-remove_back x (y ∷ l) = ap suc (length-remove_back y l)

pub find-evict :
    (fuel capacity : ℕ) (l : List CacheEntry) (j : Str)
    → find l j ≡ none
    → find (evict fuel capacity l) j ≡ none
unfolding evict
find-evict zero capacity l j h = h
find-evict (suc fuel) capacity l j h =
    ground (arith, h, find-evict fuel capacity (remove_back l) j (find-remove_back l j h))

pub evict-IsUnique :
    (fuel capacity : ℕ) (l : List CacheEntry) → IsUnique l → IsUnique (evict fuel capacity l)
unfolding evict
evict-IsUnique zero capacity l u = u
evict-IsUnique (suc fuel) capacity l u = elim (Bool-cases (leb capacity (length l))) [
  | inl e ↦ rw (e, evict) (evict-IsUnique fuel capacity (remove_back l) (remove_back-IsUnique l u))
  | inr e ↦ rw (e, evict) u
]

-- The number of elements is fuel enough for the eviction to end below a positive capacity.
pub length-evict-lt :
    (fuel capacity : ℕ) (l : List CacheEntry)
    → 0 < capacity
    → length l ≤ fuel
    → length (evict fuel capacity l) < capacity
unfolding evict
length-evict-lt zero capacity [] pos enough = pos
length-evict-lt zero capacity (x ∷ l) pos enough = absurd (omega arith)
length-evict-lt (suc fuel) capacity [] pos enough = ground (arith, pos)
length-evict-lt (suc fuel) capacity (x ∷ l) pos enough = ground (
  arith,
  length-evict-lt fuel capacity (remove_back (x ∷ l)) pos
      (omega (arith, enough, length-remove_back x l)),
)

length-remove-le : (l : List CacheEntry) (id : Str) → length (remove l id) ≤ length l
unfolding remove
length-remove-le [] id = omega arith
length-remove-le (x ∷ l) id = ground (arith, length-remove-le l id)

-- a found entry has the key, and taking it out makes the list shorter
find-some :
    (l : List CacheEntry) (id : Str) (x : CacheEntry)
    → find l id ≡ some x
    → (x.key_id ≡ id) × (length (remove l id) < length l)
unfolding find remove
find-some [] id x h = absurd (ground (arith, h))
find-some (y ∷ l) id x h = elim (str_dec y.key_id id) [
  | yes p ↦ (ground (arith, p, h), ground (arith, p))
  | no p ↦
      let (same, less) = find-some l id x (ground (arith, p, h)) in (same, ground (arith, p, less))
]

-- One entry to a key, and no more than the capacity, which is positive.
pub record IsWithin (c : ApiKeyCache) : Type 0 where
  pub unique : IsUnique c.order
  pub bounded : length c.order ≤ c.capacity
  pub positive : 0 < c.capacity

pub delete-IsWithin : (c : ApiKeyCache) (id : Str) → IsWithin c → IsWithin (delete c id)
unfolding delete
delete-IsWithin c id w = record {
  unique = remove-IsUnique c.order id w.unique;
  bounded = omega (arith, length-remove-le c.order id, w.bounded);
  positive = w.positive;
}

gone : (l : List CacheEntry) (id j : Str) → IsUnique l → j ≡ id → find (remove l id) j ≡ none
gone l id j u same = find-remove l id j u ∙ ground (arith, same)

-- `Set` leaves one entry to a key and no more entries than the capacity, whether it replaces, adds or
-- evicts.
pub set-IsWithin :
    (now : ℕ) (c : ApiKeyCache) (id : Str) (key : ApiKey) → IsWithin c → IsWithin (set now c id key)
unfolding set
set-IsWithin now c id key w = elim (Option-cases (find c.order id)) [
  | inr (x, e) ↦
      let (same, less) = find-some c.order id x e in
      rw (e, set)
        (record {
          unique = (gone c.order id id w.unique refl, remove-IsUnique c.order id w.unique);
          bounded = omega (arith, less, w.bounded);
          positive = w.positive;
        })
  | inl e ↦
      rw (e, set)
        (record {
          unique = (
            find-evict (length c.order) c.capacity c.order id e,
            evict-IsUnique (length c.order) c.capacity c.order w.unique,
          );
          bounded =
              omega (
                arith,
                length-evict-lt (length c.order) c.capacity c.order w.positive (omega arith),
              );
          positive = w.positive;
        })
]

pub get-IsWithin : (now : ℕ) (c : ApiKeyCache) (id : Str) → IsWithin c → IsWithin (get now c id).0
unfolding get delete
get-IsWithin now c id w = elim (Option-cases (find c.order id)) [
  | inl e ↦ rw (e, get) w
  | inr (x, e) ↦
      let (same, less) = find-some c.order id x e in
      elim (Bool-cases (ltb x.expires_at now)) [
        | inl old ↦ rw (e, old, get) (delete-IsWithin c id w)
        | inr fresh ↦
            rw (e, fresh, get)
              (record {
                unique =
                    (gone c.order id x.key_id w.unique same, remove-IsUnique c.order id w.unique);
                bounded = omega (arith, less, w.bounded);
                positive = w.positive;
              })
      ]
]

-- The operations of the cache, with the time of those that read the clock.
pub data Op : Type 0 where
  getting : ℕ → Str → Op
  setting : ℕ → Str → ApiKey → Op
  deleting : Str → Op
  clearing : Op

abbrev pub perform : ApiKeyCache → Op → ApiKeyCache
perform c (getting now id) = (get now c id).0
perform c (setting now id key) = set now c id key
perform c (deleting id) = delete c id
perform c clearing = clear c

abbrev pub perform_all : ApiKeyCache → List Op → ApiKeyCache
perform_all c [] = c
perform_all c (op ∷ ops) = perform_all (perform c op) ops

perform-IsWithin : (c : ApiKeyCache) (op : Op) → IsWithin c → IsWithin (perform c op)
unfolding delete clear
perform-IsWithin c (getting now id) w = get-IsWithin now c id w
perform-IsWithin c (setting now id key) w = set-IsWithin now c id key w
perform-IsWithin c (deleting id) w = delete-IsWithin c id w
perform-IsWithin c clearing w = record { unique = tt; bounded = omega arith; positive = w.positive }

perform_all-IsWithin : (c : ApiKeyCache) (ops : List Op) → IsWithin c → IsWithin (perform_all c ops)
perform_all-IsWithin c [] w = w
perform_all-IsWithin c (op ∷ ops) w =
    perform_all-IsWithin (perform c op) ops (perform-IsWithin c op w)

-- After any sequence of operations on a new cache of API keys, whatever its configured capacity,
-- there is one entry to a key and no more entries than the capacity, which is positive.
pub cache_run-IsWithin :
    (capacity ttl : ℕ) (ops : List Op) → IsWithin (perform_all (new_api_key_cache capacity ttl) ops)
unfolding new_api_key_cache
cache_run-IsWithin capacity ttl ops =
    perform_all-IsWithin (new_api_key_cache capacity ttl) ops
      (record { unique = tt; bounded = omega arith; positive = ground arith })
