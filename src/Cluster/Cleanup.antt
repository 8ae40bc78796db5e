-- ===== src/Cluster/Cleanup.antt =====
-- `cleanupShardData` (src/internal/server/clusterserver/rebalance.go) over the sharded map of sessions, with
-- the locks of its shards. `Scan` is `Range` of that map, and `Delete` of the engine logs the deletion,
-- whose answer is `accepts`, and takes the session out by `Pop`. The indexes of the store are left out:
-- they are maps of their own, which the scan does not lock.
pub mod Blocked
use tokmesh_go.Base.{
  ℕ, ◌+◌, Bool, true, false, not, Option, none, some, List, [], ◌==◌, if◌then◌else◌,
}
use tokmesh_go.Domain.Str.{Str, str_dec}
use tokmesh_go.Domain.Session.{Session}
use tokmesh_go.Cmap.{Map}
use tokmesh_go.Cmap.Locked.{Turn, goes_on, returns, waits, pop_locked, range_locked}

-- The sessions, and the variables of the function.
pub record Cleaning : Type 0 where
  pub sessions : Map Str Session
  pub deleted_count : ℕ
  pub last_err : Bool

-- A cleanup that ends with an error or without one, or that waits for ever.
pub data Cleanup : Type 0 where
  cleaned : Map Str Session → Bool → Cleanup
  blocked : Cleanup

-- `Delete` of the engine, and the count or the error that the callback notes
unfoldable pub delete_session : (Str → Bool) → List ℕ → Cleaning → Str → Turn Cleaning
delete_session accepts held c id =
    if not (accepts id)
    then goes_on (record c { last_err = true })
    else elim (pop_locked str_dec held c.sessions id) [
      | none ↦ waits
      | some r ↦ elim r.1 [
        | none ↦ goes_on (record c { last_err = true })
        | some x ↦ goes_on (record c { sessions = r.0; deleted_count = c.deleted_count + 1 })
      ]
    ]

-- the callback
unfoldable pub cleanup_one : (Str → Bool) → ℕ → List ℕ → Cleaning → Str → Session → Turn Cleaning
cleanup_one accepts shard_id held c key x =
    if not (x.shard_id == shard_id) then goes_on c else delete_session accepts held c x.id

abbrev pub finished : Turn Cleaning → Cleanup
finished waits = blocked
finished (goes_on c) = cleaned c.sessions c.last_err
finished (returns c) = cleaned c.sessions c.last_err

unfoldable pub cleanup_shard_data : (Str → Bool) → ℕ → Map Str Session → Cleanup
cleanup_shard_data accepts shard_id sessions = finished (
    range_locked (cleanup_one accepts shard_id) (λ (c : Cleaning). c.sessions) []
      (record { sessions = sessions; deleted_count = 0; last_err = false }))
