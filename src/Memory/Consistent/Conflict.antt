-- ===== src/Memory/Consistent/Conflict.antt =====
-- `Update` takes the old token mapping out before it looks for a conflict with the new one.
use tokmesh_go.Base.{ℕ, ◌≡◌, false, none, some, arith}
use tokmesh_go.Domain.Str.{str_dec, is_empty}
use tokmesh_go.Domain.Error.{err, token_hash_conflict}
use tokmesh_go.Domain.Session.{Session}
use tokmesh_go.Domain.Session.Valid.{validate_err}
use tokmesh_go.Cmap
use tokmesh_go.Memory.Store.{Store}
use tokmesh_go.Memory.Store.Invariant.{IsConsistent, points, holds}
use tokmesh_go.Memory.Change.{retoken, replace, update}
use tokmesh_go.Memory.Consistent.Tokens.{get-drop_token}

module _ (s : Store) (c : IsConsistent s) (y : Session) (expected : ℕ) (x : Session)
    (here : Cmap.get str_dec s.sessions y.id ≡ some x) (given : is_empty x.token_hash ≡ false)
    (refused : (update s y expected).1 ≡ err token_hash_conflict) where
  -- The session is still there, and its token leads nowhere.
  conflict_unlinks :
      (Cmap.get str_dec (update s y expected).0.sessions y.id ≡ some x)
      × (Cmap.get str_dec (update s y expected).0.tokens x.token_hash ≡ none)
  unfolding update replace retoken
  conflict_unlinks = (
    ground (arith, validate_err y {c = token_hash_conflict}),
    ground (
      arith,
      validate_err y {c = token_hash_conflict},
      get-drop_token s.tokens c.tokens_valid x.token_hash x.token_hash,
    ),
  )

  -- On a consistent store, an `Update` of a session with a token hash that is refused with
  -- `token_hash_conflict` leaves the store inconsistent: the session is still stored, and its
  -- token no longer leads to it.
  pub conflict_breaks :
      (¬ IsConsistent (update s y expected).0)
      × (Cmap.get str_dec (update s y expected).0.sessions y.id ≡ some x)
      × (Cmap.get str_dec (update s y expected).0.tokens x.token_hash ≡ none)
  conflict_breaks = (
    λ after.
        unfold points holds in ground (arith, conflict_unlinks, after.by_token x.token_hash y.id),
    conflict_unlinks.0,
    conflict_unlinks.1,
  )
