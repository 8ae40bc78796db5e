-- ===== src/Memory/Tests.antt =====
-- Runs of the store, and instances of its theorems.
use tokmesh_go.Base.{
  ◌+◌, ◌≡◌, ◌≢◌, ◌%◌, ◌^◌, refl, false, none, some, List, [], ◌∷◌, arith, ite, if◌then◌else◌,
}
use tokmesh_go.Cmap
use tokmesh_go.Cmap.Laws as CmapLaws
use tokmesh_go.Domain.Str.{Str, str_dec, bytes}
use tokmesh_go.Domain.Error.{err, token_hash_conflict}
use tokmesh_go.Domain.Session.{Session}
use tokmesh_go.Memory.Store
use tokmesh_go.Memory.Store.{Store, Seeds}
use tokmesh_go.Memory.Store.Invariant.{IsConsistent, holds, owned}
use tokmesh_go.Memory.Change
use tokmesh_go.Memory.Consistent.ByUser
use tokmesh_go.Memory.Consistent.Conflict
use tokmesh_go.Memory.Consistent.Reads
use tokmesh_go.Memory.Consistent.Writes
use tokmesh_go.Memory.Consistent.Quota
use tokmesh_go.Memory.Consistent.Run.{
  Call, creating, updating, deleting, perform_all, store_run-IsConsistent,
}
use tokmesh_go.Memory.Samples.{
  seeds, alice, bob, program, s0, s2, s0-IsConsistent, s2-IsConsistent, bob_there,
}

expired_gone : (Change.cleanup_expired 6000 s2).1 ≡ 2
unfolding program
expired_gone = refl

get-delete_by_user_id_example :
    Cmap.get str_dec (Change.delete_by_user_id s2 bob.user_id).0.sessions alice.id ≡ (
      if owned (Cmap.get str_dec s2.sessions alice.id) bob.user_id
      then none
      else Cmap.get str_dec s2.sessions alice.id)
get-delete_by_user_id_example = ByUser.get-delete_by_user_id s2 s2-IsConsistent bob.user_id alice.id

-- bob, with a new token and more recent activity
abbrev bob' : Session
bob' = record bob { token_hash = bytes "tmth_c"; last_active = 2000 }

-- bob, asking for the token of alice
abbrev thief : Session
thief = record bob { token_hash = alice.token_hash }

same_user : (x : Session) → Cmap.get str_dec s2.sessions bob'.id ≡ some x → bob'.user_id ≡ x.user_id
unfolding program
same_user x h = cc h

not_refused : (Change.update s2 bob' 1).1 ≢ err token_hash_conflict
unfolding program
not_refused h = cc h

-- two sessions, a new token for one of them, and a deletion of the other
abbrev calls : List Call
calls = creating alice ∷ creating bob ∷ updating bob' 1 ∷ deleting alice.id ∷ []

store_run-IsConsistent_example : IsConsistent (perform_all s0 calls)
store_run-IsConsistent_example =
    store_run-IsConsistent seeds calls (tt, (tt, ((same_user, not_refused), (tt, tt))))

refused : (Change.update s2 thief 1).1 ≡ err token_hash_conflict
unfolding program
refused = refl

conflict_breaks_example :
    (¬ IsConsistent (Change.update s2 thief 1).0)
    × (Cmap.get str_dec (Change.update s2 thief 1).0.sessions thief.id ≡ some bob)
    × (Cmap.get str_dec (Change.update s2 thief 1).0.tokens bob.token_hash ≡ none)
conflict_breaks_example =
    Conflict.conflict_breaks s2 s2-IsConsistent thief 1 bob bob_there refl refused

update_locks_example :
    (x : Session) × (Cmap.get str_dec s2.sessions bob'.id ≡ some x)
    × (x.version ≡ 1)
    × (record bob' { version = 2 } ≡ record bob' { version = (bob'.version + 1) % 2 ^ 64 })
    × ((j : Str)
        → Cmap.get str_dec (Change.update s2 bob' 1).0.sessions j
          ≡ ite
              (str_dec bob'.id j)
              (some (record bob' { version = 2 }))
              (Cmap.get str_dec s2.sessions j))
unfolding program
update_locks_example =
    Writes.update_locks s2 bob' (record bob' { version = 2 }) 1 s2-IsConsistent refl

nobody : (id : Str) → holds (Cmap.get str_dec s0.sessions id) alice.token_hash ≡ false
unfolding Store.new holds
nobody id = ground (arith, CmapLaws.get-new {V = Session} str_dec seeds.of_sessions id)

token_unique_example : bob.id ≡ bob.id
token_unique_example =
    Reads.token_unique 2000 s2 s2-IsConsistent bob.token_hash bob.id bob.id bob bob bob_there
      bob_there refl refl refl

create-IsWithinQuota_example : Quota.IsWithinQuota (Store.create s0 alice).0
create-IsWithinQuota_example =
    Quota.create-IsWithinQuota s0 alice s0-IsConsistent (Quota.new-IsWithinQuota seeds)
