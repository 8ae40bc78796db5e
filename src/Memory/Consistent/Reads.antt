-- ===== src/Memory/Consistent/Reads.antt =====
-- What the reading methods return on a consistent store.
use tokmesh_go.Base.{
  ℕ, ◌≡◌, refl, Bool, true, false, not, ◌&&◌, Option, none, some, List, [], ◌∷◌, map, ite, arith,
  Option-cases, inl, inr,
}
use tokmesh_go.Domain.Str.{Str, str_dec, is_empty}
use tokmesh_go.Domain.Error.{err, token_invalid}
use tokmesh_go.Domain.Session.{Session, is_expired, clone}
use tokmesh_go.Cmap
use tokmesh_go.Memory.UserIndex
use tokmesh_go.Memory.UserIndex.Laws as IndexLaws
use tokmesh_go.Memory.SessionSet.{elem}
use tokmesh_go.Memory.Store.{Store, live, get_by_token, list_ids, list_by_user_id}
use tokmesh_go.Memory.Store.Invariant.{IsConsistent, points, holds, owned, named}

-- What `GetByToken` should return, by a look at the session that holds the token, if there is one.
module _ (now : ℕ) (s : Store) (c : IsConsistent s) (hash : Str) where
  -- On a consistent store, `GetByToken` of a token that a stored session holds returns that
  -- session, or reports it as expired, and changes nothing.
  pub get_by_token_found :
      (id : Str) (x : Session)
      → Cmap.get str_dec s.sessions id ≡ some x
      → x.token_hash ≡ hash
      → is_empty hash ≡ false
      → get_by_token now s hash ≡ (s, live now s x)
  unfolding get_by_token points holds
  get_by_token_found id x here same given = ground (arith, c.by_token hash id)

  -- On a consistent store, `GetByToken` of a token that no session holds reports an invalid token
  -- and changes nothing.
  pub get_by_token_invalid :
      ((id : Str) → holds (Cmap.get str_dec s.sessions id) hash ≡ false)
      → get_by_token now s hash ≡ (s, err token_invalid)
  unfolding get_by_token points
  get_by_token_invalid nobody = elim (Option-cases (Cmap.get str_dec s.tokens hash)) [
    | inl e ↦ ground arith
    | inr (id, e) ↦ ground (arith, c.by_token hash id, nobody id)
  ]

  -- The index has no orphans, so `GetByToken` never has to clean up.
  pub get_by_token_same : (get_by_token now s hash).0 ≡ s
  unfolding get_by_token points holds
  get_by_token_same = elim (Option-cases (Cmap.get str_dec s.tokens hash)) [
    | inl e ↦ ground arith
    | inr (id, e) ↦ ground (arith, c.by_token hash id)
  ]

  -- No two sessions hold one token.
  pub token_unique :
      (i j : Str) (x y : Session)
      → Cmap.get str_dec s.sessions i ≡ some x
      → Cmap.get str_dec s.sessions j ≡ some y
      → x.token_hash ≡ hash
      → y.token_hash ≡ hash
      → is_empty hash ≡ false
      → i ≡ j
  unfolding points holds
  token_unique i j x y hi hj px py given = ground (arith, c.by_token hash i, c.by_token hash j)

-- Whether a stored session belongs to a user and has not expired.
abbrev pub listed : ℕ → Str → Option Session → Bool
listed now user o = elim o [
  | none ↦ false
  | some x ↦ ite (str_dec x.user_id user) (not (is_expired now x)) false
]

abbrev live_at : ℕ → Option Session → Bool
live_at now o = elim o [ none ↦ false | some x ↦ not (is_expired now x) ]

elem-list_ids :
    (now : ℕ) (s : Store)
    → ((id : Str) → named (Cmap.get str_dec s.sessions id) id ≡ true)
    → (l : List Str) (id : Str)
    → elem id (map (λ x. x.id) (list_ids now s l))
      ≡ (elem id l && live_at now (Cmap.get str_dec s.sessions id))
unfolding elem list_ids named clone
elem-list_ids now s ids [] id = refl
elem-list_ids now s ids (j ∷ l) id = ground (arith, elem-list_ids now s ids l id, ids j)

-- On a consistent store, an ID is among those that `ListByUserID` lists exactly if the session
-- stored under it belongs to the user and has not expired.
pub elem-list_by_user_id :
    (now : ℕ) (s : Store)
    → IsConsistent s
    → (user id : Str)
    → elem id (map (λ x. x.id) (list_by_user_id now s user))
      ≡ listed now user (Cmap.get str_dec s.sessions id)
unfolding list_by_user_id owned
elem-list_by_user_id now s c user id = ground (
  arith,
  elem-list_ids now s c.ids (UserIndex.get s.user_index user) id,
  IndexLaws.elem-get s.user_index user id,
  c.by_user user id,
)
