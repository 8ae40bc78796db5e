-- ===== src/Memory/Consistent/Remove.antt =====
-- `Delete`, `DeleteByToken`, `DeleteByUserID` and `CleanupExpired`.
use tokmesh_go.Base.{ℕ, ◌≡◌, ◌∙◌, true, false, some, List, [], ◌∷◌, arith, Option-cases, inl, inr}
use tokmesh_go.Domain.Str.{Str, str_dec, is_empty}
use tokmesh_go.Domain.Session.{Session}
use tokmesh_go.Cmap
use tokmesh_go.Cmap.Laws as CmapLaws
use tokmesh_go.Memory.UserIndex
use tokmesh_go.Memory.UserIndex.Laws as IndexLaws
use tokmesh_go.Memory.Store.{Store, drop_token}
use tokmesh_go.Memory.Store.Invariant.{IsConsistent, points, holds, owned, named}
use tokmesh_go.Memory.Change.{unindexed, delete, delete_by_token, delete_ids, cleanup_expired}
use tokmesh_go.Memory.Consistent.Tokens.{get-drop_token, drop_token-IsValid}

module _ (s : Store) (c : IsConsistent s) (id : Str) (x : Session)
    (here : Cmap.get str_dec s.sessions id ≡ some x) where
  abbrev rest : Cmap.Map Str Session
  rest = (Cmap.pop str_dec s.sessions id).0

  unindexed-ids : (j : Str) → named (Cmap.get str_dec (unindexed s rest id x).sessions j) j ≡ true
  unfolding unindexed named
  unindexed-ids j =
      ground (arith, CmapLaws.get-pop str_dec s.sessions c.sessions_valid id j, c.ids j)

  unindexed-by_token :
      (hash j : Str)
      → points (Cmap.get str_dec (unindexed s rest id x).tokens hash) j
        ≡ holds (Cmap.get str_dec (unindexed s rest id x).sessions j) hash
  unfolding unindexed points holds
  unindexed-by_token hash j = ground (
    arith,
    CmapLaws.get-pop str_dec s.sessions c.sessions_valid id j,
    get-drop_token s.tokens c.tokens_valid x.token_hash hash,
    c.by_token hash j,
    c.by_token hash id,
  )

  unindexed-by_user :
      (user j : Str)
      → UserIndex.member (unindexed s rest id x).user_index user j
        ≡ owned (Cmap.get str_dec (unindexed s rest id x).sessions j) user
  unfolding unindexed owned
  unindexed-by_user user j = ground (
    arith,
    CmapLaws.get-pop str_dec s.sessions c.sessions_valid id j,
    IndexLaws.member-remove s.user_index c.users_valid x.user_id id user j,
    c.by_user user j,
  )

  unindexed-IsConsistent : IsConsistent (unindexed s rest id x)
  unindexed-IsConsistent = record {
    sessions_valid =
        unfold unindexed in CmapLaws.pop-IsValid str_dec s.sessions c.sessions_valid id;
    tokens_valid = unfold unindexed in drop_token-IsValid s.tokens c.tokens_valid x.token_hash;
    users_valid =
        unfold unindexed in IndexLaws.remove-IsValid s.user_index c.users_valid x.user_id id;
    ids = unindexed-ids;
    by_token = unindexed-by_token;
    by_user = unindexed-by_user;
  }

module _ (s : Store) (c : IsConsistent s) where
  -- `Delete` keeps a store consistent.
  pub delete-IsConsistent : (id : Str) → IsConsistent (delete s id).0
  unfolding delete
  delete-IsConsistent id = elim (Option-cases (Cmap.get str_dec s.sessions id)) [
    | inl e ↦
        rw (CmapLaws.pop_lem str_dec s.sessions c.sessions_valid id ∙ e, delete)
          (rw (CmapLaws.pop_absent str_dec s.sessions c.sessions_valid id e) c)
    | inr (x, e) ↦
        rw (CmapLaws.pop_lem str_dec s.sessions c.sessions_valid id ∙ e, delete)
          (unindexed-IsConsistent s c id x e)
  ]

  by_token_session :
      (hash id : Str)
      → Cmap.get str_dec s.tokens hash ≡ some id
      → (x : Session) × (Cmap.get str_dec s.sessions id ≡ some x)
        × (x.token_hash ≡ hash)
        × (is_empty hash ≡ false)
  unfolding points holds
  by_token_session hash id e = ground (arith, c.by_token hash id)

  -- On a consistent store, `DeleteByToken` of an indexed token does what `Delete` of its session
  -- does.
  pub delete_by_token-delete :
      (hash id : Str)
      → Cmap.get str_dec s.tokens hash ≡ some id
      → delete_by_token s hash ≡ delete s id
  unfolding delete_by_token delete unindexed drop_token
  delete_by_token-delete hash id e =
      let (x, found, same, given) = by_token_session hash id e in
      ground (
        arith,
        CmapLaws.pop_lem str_dec s.sessions c.sessions_valid id,
        CmapLaws.pop_lem str_dec s.tokens c.tokens_valid hash,
        CmapLaws.pop-delete str_dec s.tokens c.tokens_valid hash id e,
      )

  pub delete_by_token-IsConsistent : (hash : Str) → IsConsistent (delete_by_token s hash).0
  delete_by_token-IsConsistent hash = elim (Option-cases (Cmap.get str_dec s.tokens hash)) [
    | inl e ↦
        unfold delete_by_token in
        rw (CmapLaws.pop_lem str_dec s.tokens c.tokens_valid hash ∙ e, delete_by_token)
          (rw (CmapLaws.pop_absent str_dec s.tokens c.tokens_valid hash e) c)
    | inr (id, e) ↦ rw (delete_by_token-delete hash id e) (delete-IsConsistent id)
  ]

-- Deleting one ID after the other keeps a store consistent.
delete_ids-IsConsistent :
    (s : Store) (ids : List Str) → IsConsistent s → IsConsistent (delete_ids s ids)
unfolding delete_ids
delete_ids-IsConsistent s [] c = c
delete_ids-IsConsistent s (id ∷ ids) c =
    delete_ids-IsConsistent (delete s id).0 ids (delete-IsConsistent s c id)

-- `CleanupExpired` keeps a store consistent.
pub cleanup_expired-IsConsistent :
    (now : ℕ) (s : Store) → IsConsistent s → IsConsistent (cleanup_expired now s).0
unfolding cleanup_expired
cleanup_expired-IsConsistent now s c = delete_ids-IsConsistent s _ c
