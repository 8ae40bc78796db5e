-- ===== src/Memory/Store.antt =====
-- `Store` (src/internal/storage/memory/store.go). A method that writes returns the store beside its
-- result; `now` is what `time.Now().UnixMilli()` reads. The store lock `mu` makes each writing
-- method one step; the readers and `Touch` take no lock, and are modelled as one step too.
pub mod Invariant
use tokmesh_go.Base.{
  ℕ, ◌+◌, ◌<◌, ◌≡◌, Bool, true, false, not, ◌&&◌, Option, none, some, List, [], ◌∷◌, ◌++◌, map, ite,
  ltb, leb, ◌==◌, length, ℕ_discrete, if◌then◌else◌,
}
use tokmesh_go.Domain.Str.{Str, str_dec, is_empty}
use tokmesh_go.Domain.Error.{
  Result, ok, err, session_not_found, session_expired, session_conflict, session_version_conflict,
  session_quota_exceeded, token_invalid, token_hash_conflict, ◌>>=◌,
}
use tokmesh_go.Domain.Session.{Session, is_expired, validate, clone, incr_version}
use tokmesh_go.Domain.Session
use tokmesh_go.Cmap
use tokmesh_go.Cmap.{Map}
use tokmesh_go.Cmap.Iter
use tokmesh_go.Memory.UserIndex
use tokmesh_go.Memory.UserIndex.{UserIndex}

abbrev pub default_max_sessions_per_user : ℕ
default_max_sessions_per_user = 50

pub record Store : Type 0 where
  pub sessions : Map Str Session
  pub tokens : Map Str Str
  pub user_index : UserIndex
  pub max_sessions_per_user : ℕ

-- The hash seeds of the three maps, as `maphash.MakeSeed` picks them.
pub record Seeds : Type 0 where
  pub of_sessions : Str → ℕ
  pub of_tokens : Str → ℕ
  pub of_users : Str → ℕ

-- `WithMaxSessionsPerUser`
unfoldable pub with_max_sessions_per_user : ℕ → Store → Store
with_max_sessions_per_user n s = record s { max_sessions_per_user = n }

-- `for _, opt := range opts { opt(s) }`
apply_options : List (Store → Store) → Store → Store
apply_options [] s = s
apply_options (opt ∷ opts) s = apply_options opts (opt s)

-- `New`
unfoldable pub new : Seeds → List (Store → Store) → Store
unfolding apply_options
new seeds opts = apply_options opts (record {
  sessions = Cmap.new seeds.of_sessions;
  tokens = Cmap.new seeds.of_tokens;
  user_index = UserIndex.new_user_index seeds.of_users;
  max_sessions_per_user = default_max_sessions_per_user;
})

-- `if session.TokenHash != "" { s.tokens.Delete(session.TokenHash) }`
unfoldable pub drop_token : Map Str Str → Str → Map Str Str
drop_token tokens hash = if is_empty hash then tokens else Cmap.delete str_dec tokens hash

-- `if session.TokenHash != "" { s.tokens.Set(session.TokenHash, session.ID) }`
unfoldable pub put_token : Map Str Str → Str → Str → Map Str Str
put_token tokens hash id = if is_empty hash then tokens else Cmap.set str_dec tokens hash id

module _ (now : ℕ) (s : Store) where
  -- A session that was read, unless it has expired.
  unfoldable pub live : Session → Result Session
  live session = if is_expired now session then err session_expired else ok (clone session)

  unfoldable pub get : Str → Result Session
  get id = elim (Cmap.get str_dec s.sessions id) [
    | none ↦ err session_not_found
    | some session ↦ live session
  ]

  -- A token whose session is gone is taken out of the index.
  unfoldable pub get_by_token : Str → Store × Result Session
  get_by_token hash = elim (Cmap.get str_dec s.tokens hash) [
    | none ↦ (s, err token_invalid)
    | some id ↦ elim (Cmap.get str_dec s.sessions id) [
      | none ↦ (record s { tokens = Cmap.delete str_dec s.tokens hash }, err token_invalid)
      | some session ↦ (s, live session)
    ]
  ]

  unfoldable pub touch : Str → Str → Str → Store × Result (Unit {0})
  touch id ip user_agent = elim (Cmap.get str_dec s.sessions id) [
    | none ↦ (s, err session_not_found)
    | some session ↦ if is_expired now session then (s, err session_expired) else (
      record s {
        sessions = Cmap.set str_dec s.sessions id (Session.touch now ip user_agent session);
      },
      ok tt,
    )
  ]

  -- the loop of `ListByUserID`
  unfoldable pub list_ids : List Str → List Session
  list_ids [] = []
  list_ids (id ∷ ids) =
      let rest = list_ids ids in
      elim (Cmap.get str_dec s.sessions id) [
        | none ↦ rest
        | some session ↦ if is_expired now session then rest else clone session ∷ rest
      ]

  unfoldable pub list_by_user_id : Str → List Session
  unfolding list_ids
  list_by_user_id user_id = list_ids (UserIndex.get s.user_index user_id)

-- the body of `Create` after its checks
unfoldable pub stored : Store → Session → Store
stored s session = record s {
  sessions = Cmap.set str_dec s.sessions session.id (clone session);
  tokens = put_token s.tokens session.token_hash session.id;
  user_index = UserIndex.add s.user_index session.user_id session.id;
}

-- the checks of `Create`, in order
unfoldable pub check_create : Store → Session → Result (Unit {0})
check_create s session = do
  _ ← validate session
  if leb s.max_sessions_per_user (UserIndex.count s.user_index session.user_id)
      then err session_quota_exceeded
      else if Cmap.has str_dec s.sessions session.id
      then err session_conflict
      else if not (is_empty session.token_hash) && Cmap.has str_dec s.tokens session.token_hash
      then err token_hash_conflict
      else ok tt

unfoldable pub create : Store → Session → Store × Result (Unit {0})
unfolding check_create stored
create s session = elim (check_create s session) [
  | err e ↦ (s, err e)
  | ok _ ↦ (stored s session, ok tt)
]
