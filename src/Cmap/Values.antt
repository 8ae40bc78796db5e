-- ===== src/Cmap/Values.antt =====
-- A function on the values of a map, which commutes with the operations of the map.
use tokmesh_go.Base.{
  ℕ, zero, suc, ◌≡◌, refl, ap, sym, ◌∙◌, Bool, true, false, Option, none, some, List, [], ◌∷◌, map,
  get_or, arith, Option-cases, inl, inr,
}
use tokmesh_go.Base
use mathlib.Core.Option.{map as map_option}
use tokmesh_go.GoMap
use tokmesh_go.GoMap.{GoMap}
use tokmesh_go.Cmap.{Map, get_shard, put_shard, get, set, delete, has, pop}

module _ {ℓ} {K V : Type ℓ} (f : V → V) where
  unfoldable pub items_values : GoMap K V → GoMap K V
  items_values [] = []
  items_values ((k, v) ∷ m) = (k, f v) ∷ items_values m

  unfoldable pub map_values : Map K V → Map K V
  map_values m = record m { shards = map items_values m.shards }

  get_or-map :
      (l : List (GoMap K V)) (i : ℕ)
      → get_or (map items_values l) i [] ≡ items_values (get_or l i [])
  unfolding items_values
  get_or-map [] i = refl
  get_or-map (x ∷ l) zero = refl
  get_or-map (x ∷ l) (suc i) = get_or-map l i

  set-map :
      (l : List (GoMap K V)) (i : ℕ) (x : GoMap K V)
      → Base.set (map items_values l) i (items_values x) ≡ map items_values (Base.set l i x)
  set-map [] i x = refl
  set-map (y ∷ l) zero x = refl
  set-map (y ∷ l) (suc i) x = ap (◌∷◌ (items_values y)) (set-map l i x)

  get_shard-map_values :
      (m : Map K V) (k : K) → get_shard (map_values m) k ≡ items_values (get_shard m k)
  unfolding get_shard map_values
  get_shard-map_values m k = get_or-map m.shards _

  put_shard-map_values :
      (m : Map K V) (k : K) (x : GoMap K V)
      → put_shard (map_values m) k (items_values x) ≡ map_values (put_shard m k x)
  unfolding put_shard map_values
  put_shard-map_values m k x =
      ap (λ l. record { shards = l; shard_mask = m.shard_mask; seed = m.seed })
        (set-map m.shards _ x)

  module _ (dec : Discrete K) where
    items_get :
        (m : GoMap K V) (k : K)
        → GoMap.get dec (items_values m) k ≡ map_option f (GoMap.get dec m k)
    unfolding GoMap.get items_values
    items_get [] k = refl
    items_get ((j, v) ∷ m) k = ground (arith, items_get m k)

    items_set :
        (m : GoMap K V) (k : K) (v : V)
        → GoMap.set dec (items_values m) k (f v) ≡ items_values (GoMap.set dec m k v)
    unfolding GoMap.set items_values
    items_set [] k v = refl
    items_set ((j, w) ∷ m) k v = ground (arith, items_set m k v)

    items_delete :
        (m : GoMap K V) (k : K)
        → GoMap.delete dec (items_values m) k ≡ items_values (GoMap.delete dec m k)
    unfolding GoMap.delete items_values
    items_delete [] k = refl
    items_delete ((j, w) ∷ m) k = ground (arith, items_delete m k)

    pub get-map_values :
        (m : Map K V) (k : K) → get dec (map_values m) k ≡ map_option f (get dec m k)
    unfolding get
    get-map_values m k =
        ap (λ x. GoMap.get dec x k) (get_shard-map_values m k) ∙ items_get (get_shard m k) k

    pub set-map_values :
        (m : Map K V) (k : K) (v : V) → set dec (map_values m) k (f v) ≡ map_values (set dec m k v)
    unfolding set
    set-map_values m k v =
        ap (λ x. put_shard (map_values m) k (GoMap.set dec x k (f v))) (get_shard-map_values m k)
        ∙ ap (put_shard (map_values m) k) (items_set (get_shard m k) k v)
        ∙ put_shard-map_values m k _

    pub delete-map_values :
        (m : Map K V) (k : K) → delete dec (map_values m) k ≡ map_values (delete dec m k)
    unfolding delete
    delete-map_values m k =
        ap (λ x. put_shard (map_values m) k (GoMap.delete dec x k)) (get_shard-map_values m k)
        ∙ ap (put_shard (map_values m) k) (items_delete (get_shard m k) k)
        ∙ put_shard-map_values m k _

    pub has-map_values : (m : Map K V) (k : K) → has dec (map_values m) k ≡ has dec m k
    unfolding has
    has-map_values m k = elim (Option-cases (get dec m k)) [
      | inl e ↦ ground (arith, e, get-map_values m k)
      | inr (v, e) ↦ ground (arith, e, get-map_values m k)
    ]

    pub pop-map_values :
        (m : Map K V) (k : K)
        → ((pop dec (map_values m) k).0 ≡ map_values (pop dec m k).0)
          × ((pop dec (map_values m) k).1 ≡ map_option f (pop dec m k).1)
    unfolding pop get delete
    pop-map_values m k = elim (Option-cases (GoMap.get dec (get_shard m k) k)) [
      | inl e ↦ ground (arith, e, get-map_values m k)
      | inr (v, e) ↦ ground (arith, e, get-map_values m k, delete-map_values m k)
    ]
