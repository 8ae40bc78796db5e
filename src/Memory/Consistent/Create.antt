-- ===== src/Memory/Consistent/Create.antt =====
-- `Create` and the empty store.
use tokmesh_go.Base.{◌≡◌, true, false, none, [], arith, inl, inr}
use tokmesh_go.Domain.Str.{Str, str_dec, is_empty}
use tokmesh_go.Domain.Error.{Code, ok, err, Result-cases}
use tokmesh_go.Domain.Session.{Session, clone}
use tokmesh_go.Cmap
use tokmesh_go.Cmap.Laws as CmapLaws
use tokmesh_go.Memory.UserIndex
use tokmesh_go.Memory.UserIndex.Laws as IndexLaws
use tokmesh_go.Memory.SessionSet
use tokmesh_go.Memory.Store.{Store, Seeds, new, check_create, create, stored}
use tokmesh_go.Memory.Store.Invariant.{IsConsistent, points, holds, owned, named}
use tokmesh_go.Memory.Consistent.Tokens.{get-put_token, put_token-IsValid}

-- What the checks of `Create` establish.
record IsFresh (s : Store) (x : Session) : Type 0 where
  id_free : Cmap.get str_dec s.sessions x.id ≡ none
  hash_free : is_empty x.token_hash ≡ false → Cmap.get str_dec s.tokens x.token_hash ≡ none

check_create-IsFresh : (s : Store) (x : Session) → check_create s x ≡ ok tt → IsFresh s x
unfolding check_create Cmap.has
check_create-IsFresh s x h = record { id_free = ground arith; hash_free = λ e. ground arith }

module _ (s : Store) (c : IsConsistent s) (x : Session) (f : IsFresh s x) where
  stored-ids : (id : Str) → named (Cmap.get str_dec (stored s x).sessions id) id ≡ true
  unfolding stored named clone
  stored-ids id =
      ground (arith, CmapLaws.get-set str_dec s.sessions c.sessions_valid x.id x id, c.ids id)

  stored-by_token :
      (hash id : Str)
      → points (Cmap.get str_dec (stored s x).tokens hash) id
        ≡ holds (Cmap.get str_dec (stored s x).sessions id) hash
  unfolding stored points holds clone
  stored-by_token hash id = ground (
    arith,
    CmapLaws.get-set str_dec s.sessions c.sessions_valid x.id x id,
    get-put_token s.tokens c.tokens_valid x.token_hash x.id hash,
    c.by_token hash id,
    f.hash_free,
  )

  stored-by_user :
      (user id : Str)
      → UserIndex.member (stored s x).user_index user id
        ≡ owned (Cmap.get str_dec (stored s x).sessions id) user
  unfolding stored owned clone
  stored-by_user user id = ground (
    arith,
    CmapLaws.get-set str_dec s.sessions c.sessions_valid x.id x id,
    IndexLaws.member-add s.user_index c.users_valid x.user_id x.id user id,
    c.by_user user id,
  )

  stored-IsConsistent : IsConsistent (stored s x)
  stored-IsConsistent = record {
    sessions_valid =
        unfold stored in CmapLaws.set-IsValid str_dec s.sessions c.sessions_valid x.id _;
    tokens_valid = unfold stored in put_token-IsValid s.tokens c.tokens_valid x.token_hash x.id;
    users_valid = unfold stored in IndexLaws.add-IsValid s.user_index c.users_valid x.user_id x.id;
    ids = stored-ids;
    by_token = stored-by_token;
    by_user = stored-by_user;
  }

-- `Create` keeps a store consistent, whether it stores the session or refuses it.
pub create-IsConsistent : (s : Store) (x : Session) → IsConsistent s → IsConsistent (create s x).0
unfolding create
create-IsConsistent s x c = elim (Result-cases (check_create s x)) [
  | inl (t, e) ↦ rw (e, create) (stored-IsConsistent s c x (check_create-IsFresh s x e))
  | inr (code, e) ↦ rw (e, create) c
]

-- A `Create` that is refused leaves the store as it was.
pub create_refused :
    (s : Store) (x : Session) {code : Code} → (create s x).1 ≡ err code → (create s x).0 ≡ s
unfolding create
create_refused s x h = ground arith

pub new-IsConsistent : (seeds : Seeds) → IsConsistent (new seeds [])
unfolding new
new-IsConsistent seeds = record {
  sessions_valid = CmapLaws.new-IsValid seeds.of_sessions;
  tokens_valid = CmapLaws.new-IsValid seeds.of_tokens;
  users_valid = IndexLaws.new_user_index-IsValid seeds.of_users;
  ids = λ id.
      unfold named in ground (arith, CmapLaws.get-new {V = Session} str_dec seeds.of_sessions id);
  by_token = λ hash id.
      unfold points holds in
      ground (
        arith,
        CmapLaws.get-new {V = Session} str_dec seeds.of_sessions id,
        CmapLaws.get-new {V = Str} str_dec seeds.of_tokens hash,
      );
  by_user = λ user id.
      unfold owned in
      ground (
        arith,
        CmapLaws.get-new {V = Session} str_dec seeds.of_sessions id,
        IndexLaws.set_at-new seeds.of_users user,
        SessionSet.contains-empty id,
      );
}
