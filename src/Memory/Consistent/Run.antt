-- ===== src/Memory/Consistent/Run.antt =====
-- Runs of the store: any sequence of calls of its methods.
use tokmesh_go.Base.{ℕ, ◌≡◌, ◌≢◌, sym, subst, List, [], ◌∷◌, some}
use tokmesh_go.Domain.Str.{Str, str_dec}
use tokmesh_go.Domain.Error.{err, token_hash_conflict}
use tokmesh_go.Domain.Session.{Session}
use tokmesh_go.Cmap
use tokmesh_go.Memory.Store
use tokmesh_go.Memory.Store.{Store, Seeds}
use tokmesh_go.Memory.Store.Invariant.{IsConsistent}
use tokmesh_go.Memory.Change
use tokmesh_go.Memory.Consistent.Create.{create-IsConsistent, new-IsConsistent}
use tokmesh_go.Memory.Consistent.Remove.{
  delete-IsConsistent, delete_by_token-IsConsistent, cleanup_expired-IsConsistent,
}
use tokmesh_go.Memory.Consistent.ByUser.{delete_by_user_id-IsConsistent}
use tokmesh_go.Memory.Consistent.Update.{
  touch-IsConsistent, update_session-IsConsistent, update-IsConsistent,
}
use tokmesh_go.Memory.Consistent.Reads.{get_by_token_same}

-- The calls, with the time where the method reads the clock.
pub data Call : Type 0 where
  creating : Session → Call
  updating : Session → ℕ → Call
  updating_session : Session → Call
  touching : ℕ → Str → Str → Str → Call
  reading_by_token : ℕ → Str → Call
  deleting deleting_by_token deleting_by_user_id : Str → Call
  cleaning : ℕ → Call

abbrev pub perform : Store → Call → Store
perform s (creating x) = (Store.create s x).0
perform s (updating y v) = (Change.update s y v).0
perform s (updating_session y) = (Change.update_session s y).0
perform s (touching now id ip agent) = (Store.touch now s id ip agent).0
perform s (reading_by_token now hash) = (Store.get_by_token now s hash).0
perform s (deleting id) = (Change.delete s id).0
perform s (deleting_by_token hash) = (Change.delete_by_token s hash).0
perform s (deleting_by_user_id user) = (Change.delete_by_user_id s user).0
perform s (cleaning now) = (Change.cleanup_expired now s).0

abbrev pub perform_all : Store → List Call → Store
perform_all s [] = s
perform_all s (call ∷ calls) = perform_all (perform s call) calls

-- What is asked of a call: an update keeps the user, `Update` is not refused for its token hash, and
-- `UpdateSession` keeps the token hash.
abbrev pub IsAllowed : Store → Call → Type 0
IsAllowed s (updating y v) =
    ((x : Session) → Cmap.get str_dec s.sessions y.id ≡ some x → y.user_id ≡ x.user_id)
    × ((Change.update s y v).1 ≢ err token_hash_conflict)
IsAllowed s (updating_session y) =
    (x : Session)
    → Cmap.get str_dec s.sessions y.id ≡ some x
    → (y.user_id ≡ x.user_id) × (y.token_hash ≡ x.token_hash)
IsAllowed s _ = Unit

abbrev pub AllAllowed : Store → List Call → Type 0
AllAllowed s [] = Unit
AllAllowed s (call ∷ calls) = IsAllowed s call × AllAllowed (perform s call) calls

perform-IsConsistent :
    (s : Store) (call : Call) → IsConsistent s → IsAllowed s call → IsConsistent (perform s call)
perform-IsConsistent s (creating x) c a = create-IsConsistent s x c
perform-IsConsistent s (updating y v) c a = update-IsConsistent s y v c a.0 a.1
perform-IsConsistent s (updating_session y) c a = update_session-IsConsistent s y c a
perform-IsConsistent s (touching now id ip agent) c a = touch-IsConsistent now s id ip agent c
perform-IsConsistent s (reading_by_token now hash) c a =
    subst IsConsistent (sym (get_by_token_same now s c hash)) c
perform-IsConsistent s (deleting id) c a = delete-IsConsistent s c id
perform-IsConsistent s (deleting_by_token hash) c a = delete_by_token-IsConsistent s c hash
perform-IsConsistent s (deleting_by_user_id user) c a = delete_by_user_id-IsConsistent s c user
perform-IsConsistent s (cleaning now) c a = cleanup_expired-IsConsistent now s c

perform_all-IsConsistent :
    (s : Store) (calls : List Call)
    → IsConsistent s
    → AllAllowed s calls
    → IsConsistent (perform_all s calls)
perform_all-IsConsistent s [] c all = c
perform_all-IsConsistent s (call ∷ calls) c all =
    perform_all-IsConsistent (perform s call) calls (perform-IsConsistent s call c all.0) all.1

-- After any sequence of calls of `Create`, `Update`, `UpdateSession`, `Touch`, `GetByToken`,
-- `Delete`, `DeleteByToken`, `DeleteByUserID` and `CleanupExpired` from a new store, whatever they
-- return, the indexes agree with the sessions, if each `Update` keeps the user and is not refused
-- for its token hash, and each `UpdateSession` keeps the user and the token hash.
pub store_run-IsConsistent :
    (seeds : Seeds) (calls : List Call)
    → AllAllowed (Store.new seeds []) calls
    → IsConsistent (perform_all (Store.new seeds []) calls)
store_run-IsConsistent seeds calls all =
    perform_all-IsConsistent (Store.new seeds []) calls (new-IsConsistent seeds) all
