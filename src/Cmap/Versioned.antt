-- ===== src/Cmap/Versioned.antt =====
-- Optimistic locking on a map of versioned values (src/pkg/cmap/iter.go).
use tokmesh_go.Base.{
  ℕ, ◌+◌, ◌%◌, ◌^◌, ◌≡◌, Bool, true, false, Option, none, some, arith, ite, ℕ_discrete,
}
use tokmesh_go.GoMap
use tokmesh_go.Cmap.{Map, IsValid, get_shard, put_shard, get, set, delete}
use tokmesh_go.Cmap.Laws.{get-set, get-delete}

-- The interface `Versioned`.
pub record Versioned {ℓ} (V : Type ℓ) : Type ℓ where
  pub get_version : V → ℕ
  pub set_version : V → ℕ → V

module _ {ℓ} {K V : Type ℓ} (dec : Discrete K) (ver : Versioned V) where
  -- The version is a `uint64`: the new one wraps.
  unfoldable pub compare_and_swap : Map K V → K → ℕ → V → Map K V × Bool
  compare_and_swap m key expected new_value = elim (GoMap.get dec (get_shard m key) key) [
    | none ↦ (m, false)
    | some current ↦
        ite (ℕ_discrete (ver.get_version current) expected)
          (
            put_shard m key (
                GoMap.set dec (get_shard m key) key
                  (ver.set_version new_value ((expected + 1) % 2 ^ 64))),
            true,
          )
          (m, false)
  ]

  unfoldable pub compare_and_delete : Map K V → K → ℕ → Map K V × Bool
  compare_and_delete m key expected = elim (GoMap.get dec (get_shard m key) key) [
    | none ↦ (m, false)
    | some current ↦
        ite (ℕ_discrete (ver.get_version current) expected)
          (put_shard m key (GoMap.delete dec (get_shard m key) key), true) (m, false)
  ]

  -- what a swap leaves at each key
  abbrev pub swapped : Map K V → K → ℕ → V → Option V
  swapped m key expected v = elim (get dec m key) [
    | none ↦ none
    | some current ↦
        ite (ℕ_discrete (ver.get_version current) expected)
          (some (ver.set_version v ((expected + 1) % 2 ^ 64))) (some current)
  ]

  module _ (m : Map K V) (valid : IsValid m) (k : K) (expected : ℕ) where
    -- On a valid map, `CompareAndSwap` changes the entry of the key only if its version is the
    -- expected one, to the new value with the next version modulo 2^64, and changes no other
    -- entry.
    pub get-compare_and_swap :
        (v : V) (j : K)
        → get dec (compare_and_swap m k expected v).0 j
          ≡ ite (dec k j) (swapped m k expected v) (get dec m j)
    unfolding compare_and_swap set get
    get-compare_and_swap v j =
        ground (arith, get-set dec m valid k (ver.set_version v ((expected + 1) % 2 ^ 64)) j)

    pub compare_and_swap-true :
        (v : V)
        → (compare_and_swap m k expected v).1 ≡ true
        → (c : V) × (get dec m k ≡ some c) × (ver.get_version c ≡ expected)
    unfolding compare_and_swap get
    compare_and_swap-true v h = ground arith

    pub get-compare_and_delete :
        (j : K)
        → get dec (compare_and_delete m k expected).0 j
          ≡ (elim (compare_and_delete m k expected).1 [
            | true ↦ ite (dec k j) none (get dec m j)
            | false ↦ get dec m j
          ])
    unfolding compare_and_delete delete get
    get-compare_and_delete j = ground (arith, get-delete dec m valid k j)
