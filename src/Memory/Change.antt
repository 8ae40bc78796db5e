-- ===== src/Memory/Change.antt =====
-- The methods of `Store` that change or remove sessions, and those that go over all of them
-- (src/internal/storage/memory/store.go).
use tokmesh_go.Base.{
  ℕ, ◌+◌, Bool, true, none, some, List, [], ◌∷◌, ◌++◌, ite, length, ◌==◌, if◌then◌else◌,
}
use tokmesh_go.Domain.Str.{Str, str_dec, is_empty}
use tokmesh_go.Domain.Error.{
  Result, ok, err, session_not_found, session_version_conflict, token_invalid, token_hash_conflict,
}
use tokmesh_go.Domain.Session.{Session, is_expired, validate, clone, incr_version}
use tokmesh_go.Cmap
use tokmesh_go.Cmap.{Map}
use tokmesh_go.Cmap.Iter
use tokmesh_go.Memory.UserIndex
use tokmesh_go.Memory.Store.{Store, drop_token, put_token}

-- The token index after the new hash of a session replaces the old one. The old mapping is taken
-- out before the new hash is looked up.
unfoldable pub retoken : Map Str Str → Str → Str → Str → Map Str Str × Result (Unit {0})
retoken tokens old_hash new_hash id =
    ite (str_dec old_hash new_hash) (tokens, ok tt)
      (let rest = drop_token tokens old_hash in
        if is_empty new_hash
        then (rest, ok tt)
        else if Cmap.has str_dec rest new_hash
        then (rest, err token_hash_conflict)
        else (Cmap.set str_dec rest new_hash id, ok tt))

-- `Update` after it found the session and its version matched.
unfoldable pub replace : Store → Session → Session → Store × Result Session
replace s existing session =
    let r = retoken s.tokens existing.token_hash session.token_hash session.id in
    elim r.1 [
      | err e ↦ (record s { tokens = r.0 }, err e)
      | ok _ ↦
          let stored = incr_version (clone session) in
          (
            record s { sessions = Cmap.set str_dec s.sessions session.id stored; tokens = r.0 },
            ok (record session { version = stored.version }),
          )
    ]

-- `Update`; the result is the caller's session, whose version is set.
unfoldable pub update : Store → Session → ℕ → Store × Result Session
update s session expected_version = elim (validate session) [
  | err e ↦ (s, err e)
  | ok _ ↦ elim (Cmap.get str_dec s.sessions session.id) [
    | none ↦ (s, err session_not_found)
    | some existing ↦
        if existing.version == expected_version
        then replace s existing session
        else (s, err session_version_conflict)
  ]
]

-- `UpdateSession`, with no check of the version.
unfoldable pub update_session : Store → Session → Store × Result (Unit {0})
update_session s session = elim (validate session) [
  | err e ↦ (s, err e)
  | ok _ ↦ elim (Cmap.get str_dec s.sessions session.id) [
    | none ↦ (s, err session_not_found)
    | some existing ↦
        (record s { sessions = Cmap.set str_dec s.sessions session.id (clone session) }, ok tt)
  ]
]

-- A session that was popped from the primary map, taken out of both indexes.
unfoldable pub unindexed : Store → Map Str Session → Str → Session → Store
unindexed s rest id session = record s {
  sessions = rest;
  tokens = drop_token s.tokens session.token_hash;
  user_index = UserIndex.remove s.user_index session.user_id id;
}

unfoldable pub delete : Store → Str → Store × Result (Unit {0})
delete s id =
    let r = Cmap.pop str_dec s.sessions id in
    elim r.1 [
      | none ↦ (record s { sessions = r.0 }, err session_not_found)
      | some session ↦ (unindexed s r.0 id session, ok tt)
    ]

unfoldable pub delete_by_token : Store → Str → Store × Result (Unit {0})
delete_by_token s hash =
    let r = Cmap.pop str_dec s.tokens hash in
    elim r.1 [
      | none ↦ (record s { tokens = r.0 }, err token_invalid)
      | some id ↦
          let q = Cmap.pop str_dec s.sessions id in
          elim q.1 [
            | none ↦ (record s { tokens = r.0; sessions = q.0 }, err session_not_found)
            | some session ↦ (
              record s {
                sessions = q.0;
                tokens = r.0;
                user_index = UserIndex.remove s.user_index session.user_id id;
              },
              ok tt,
            )
          ]
    ]

-- the body of the loop of `DeleteByUserID`
unfoldable pub pop_one : Store → Str → Store × ℕ
pop_one s id =
    let r = Cmap.pop str_dec s.sessions id in
    elim r.1 [
      | none ↦ (record s { sessions = r.0 }, 0)
      | some session ↦
          (record s { sessions = r.0; tokens = drop_token s.tokens session.token_hash }, 1)
    ]

-- the loop; the second part is `deleted`
unfoldable pub pop_ids : Store → List Str → ℕ → Store × ℕ
pop_ids s [] deleted = (s, deleted)
pop_ids s (id ∷ ids) deleted = pop_ids (pop_one s id).0 ids (deleted + (pop_one s id).1)

unfoldable pub delete_by_user_id : Store → Str → Store × ℕ
delete_by_user_id s user_id =
    let ids = UserIndex.get s.user_index user_id in
    if length ids == 0
    then (s, 0)
    else let r = pop_ids s ids 0 in
      (record r.0 { user_index = UserIndex.clear r.0.user_index user_id }, r.1)

-- the callback of `CleanupExpired`
unfoldable pub collect_expired : ℕ → List Str → Str → Session → List Str × Bool
collect_expired now to_delete id session =
    (if is_expired now session then to_delete ++ id ∷ [] else to_delete, true)

-- the loop of `CleanupExpired` over the IDs that it collected
unfoldable pub delete_ids : Store → List Str → Store
delete_ids s [] = s
delete_ids s (id ∷ ids) = delete_ids (delete s id).0 ids

-- `CleanupExpired` and `DeleteExpired`
unfoldable pub cleanup_expired : ℕ → Store → Store × ℕ
cleanup_expired now s =
    let to_delete = Iter.range (collect_expired now) s.sessions [] in
    (delete_ids s to_delete, length to_delete)

-- `Scan`; the callback has the caller's variables.
unfoldable pub scan : {S : Type 0} → (S → Session → S × Bool) → Store → S → S
scan fn s = Iter.range (λ acc _ session. fn acc (clone session)) s.sessions

-- `All`
unfoldable pub all : Store → List Session
all s = Iter.range (λ sessions _ session. (sessions ++ clone session ∷ [], true)) s.sessions []

-- the loop of `LoadFromSnapshot`
unfoldable pub load_sessions : Store → List Session → Store
load_sessions s [] = s
load_sessions s (session ∷ sessions) =
    load_sessions
      (record s {
        sessions = Cmap.set str_dec s.sessions session.id (clone session);
        tokens = put_token s.tokens session.token_hash session.id;
        user_index = UserIndex.add s.user_index session.user_id session.id;
      })
      sessions

unfoldable pub load_from_snapshot : (Str → ℕ) → Store → List Session → Store
load_from_snapshot seed s sessions =
    load_sessions
      (record s {
        sessions = Iter.clear s.sessions;
        tokens = Iter.clear s.tokens;
        user_index = UserIndex.new_user_index seed;
      })
      sessions

-- `Count`
unfoldable pub count : Store → ℕ
count s = Iter.count s.sessions

-- `CountByUserID` and `CountByUser`
unfoldable pub count_by_user_id : Store → Str → ℕ
count_by_user_id s user_id = UserIndex.count s.user_index user_id
