-- ===== src/Redis/Command/Handle.antt =====
-- `Handle`: the commands of a connection, those that ask for no authentication first.
use tokmesh_go.Base.{
  ℕ, ◌+◌, Bool, true, not, Option, none, some, List, [], ◌∷◌, length, ltb, if◌then◌else◌,
}
use tokmesh_go.Domain.Str.{Str, bytes}
use tokmesh_go.Domain.Error.{Result, ok, err}
use tokmesh_go.Redis.Resp.{pos}
use tokmesh_go.Redis.Command.{
  ApiKeyInfo, ConnState, Services, Syntax, no_command, no_auth, rate_limited, permission_denied,
  unknown_command, wrong_number, too_many_keys, invalid_credentials, Reply, simple, bulk, integer,
  failure, Command, ping, auth, quit, get, set, del, expire, ttl, exists, scan, tm_create,
  tm_validate, tm_touch, tm_revoke_user, other, command_of, check_permission, credentials, refused,
  parsed,
}
use tokmesh_go.Redis.Command.Handlers.{
  handle_get, handle_set, handle_expire, handle_ttl, handle_exists, handle_scan, handle_tm_create,
  handle_tm_validate, handle_tm_touch, handle_tm_revoke_user,
}

module _ (sv : Services) (syn : Syntax) where
  abbrev pub succeeded {ℓ} : {A : Type ℓ} → Result A → ℕ
  succeeded (ok a) = 1
  succeeded (err e) = 0

  -- The loop of DEL: the state that the revocations leave, and how many succeeded.
  unfoldable pub revoke_all : sv.State → List Str → sv.State × ℕ
  revoke_all s [] = (s, 0)
  revoke_all s (id ∷ ids) =
      let r = sv.revoke s id in let rest = revoke_all r.0 ids in (rest.0, succeeded r.1 + rest.1)

  unfoldable pub handle_del : sv.State → List Str → sv.State × List Reply
  handle_del s [] = (s, failure wrong_number ∷ [])
  handle_del s (id ∷ ids) =
      let r = revoke_all s (id ∷ ids) in
      if ltb 1000 (length (id ∷ ids))
      then (s, failure too_many_keys ∷ [])
      else (r.0, integer (pos r.1) ∷ [])

  -- What a connection is after a command; `none` is closed.
  abbrev pub Handled : Type 0
  Handled = sv.State × Option ConnState × List Reply

  abbrev pub entered : ApiKeyInfo → ConnState
  entered k = record { authenticated = true; api_key = some k }

  unfoldable pub handle_auth : sv.State → ConnState → List Str → Handled
  handle_auth s st args = elim (credentials args) [
    | refused f ↦ (s, some st, failure f ∷ [])
    | parsed p ↦
        let r = sv.validate_api_key s p.0 p.1 in
        elim r.1 [
          | none ↦ (r.0, some st, failure invalid_credentials ∷ [])
          | some k ↦ (r.0, some (entered k), simple (bytes "OK") ∷ [])
        ]
  ]

  unfoldable pub handle_ping : List Str → Reply
  handle_ping [] = simple (bytes "PONG")
  handle_ping (message ∷ _) = bulk message

  abbrev pub keeps : ConnState → sv.State × List Reply → Handled
  keeps st a = (a.0, some st, a.1)

  -- The second `switch`.
  unfoldable pub run_command : (ip : Str) → sv.State → Command → List Str → sv.State × List Reply
  run_command ip s get args = handle_get sv syn s args
  run_command ip s set args = handle_set sv syn s args
  run_command ip s del args = handle_del s args
  run_command ip s expire args = handle_expire sv syn s args
  run_command ip s ttl args = handle_ttl sv syn s args
  run_command ip s exists args = handle_exists sv syn s args
  run_command ip s scan args = handle_scan sv syn s args
  run_command ip s tm_create args = handle_tm_create sv syn s args
  run_command ip s tm_validate args = handle_tm_validate sv syn s ip args
  run_command ip s tm_touch args = handle_tm_touch sv syn s ip args
  run_command ip s tm_revoke_user args = handle_tm_revoke_user sv syn s args
  run_command ip s other args = (s, failure unknown_command ∷ [])
  run_command ip s ping args = (s, failure unknown_command ∷ [])
  run_command ip s auth args = (s, failure unknown_command ∷ [])
  run_command ip s quit args = (s, failure unknown_command ∷ [])

  -- The guards of the commands that ask for authentication.
  unfoldable pub guarded :
      (allowed : Bool) → (ip : Str) → sv.State → ConnState → Command → List Str → Handled
  guarded allowed ip s st c args =
      if not st.authenticated
      then (s, some st, failure no_auth ∷ [])
      else if not allowed
      then (s, some st, failure rate_limited ∷ [])
      else if not (check_permission st c)
      then (s, some st, failure permission_denied ∷ [])
      else keeps st (run_command ip s c args)

  unfoldable pub handle_command :
      (allowed : Bool) → (ip : Str) → sv.State → ConnState → Command → List Str → Handled
  handle_command allowed ip s st ping args = (s, some st, handle_ping args ∷ [])
  handle_command allowed ip s st auth args = handle_auth s st args
  handle_command allowed ip s st quit args = (s, none, simple (bytes "OK") ∷ [])
  handle_command allowed ip s st get args = guarded allowed ip s st get args
  handle_command allowed ip s st set args = guarded allowed ip s st set args
  handle_command allowed ip s st del args = guarded allowed ip s st del args
  handle_command allowed ip s st expire args = guarded allowed ip s st expire args
  handle_command allowed ip s st ttl args = guarded allowed ip s st ttl args
  handle_command allowed ip s st exists args = guarded allowed ip s st exists args
  handle_command allowed ip s st scan args = guarded allowed ip s st scan args
  handle_command allowed ip s st tm_create args = guarded allowed ip s st tm_create args
  handle_command allowed ip s st tm_validate args = guarded allowed ip s st tm_validate args
  handle_command allowed ip s st tm_touch args = guarded allowed ip s st tm_touch args
  handle_command allowed ip s st tm_revoke_user args = guarded allowed ip s st tm_revoke_user args
  handle_command allowed ip s st other args = guarded allowed ip s st other args

  -- `Handle`
  unfoldable pub handle : (allowed : Bool) → (ip : Str) → sv.State → ConnState → List Str → Handled
  handle allowed ip s st [] = (s, some st, failure no_command ∷ [])
  handle allowed ip s st (name ∷ args) =
      handle_command allowed ip s st (command_of (syn.to_upper name)) args
