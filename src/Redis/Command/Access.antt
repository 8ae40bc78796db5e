-- ===== src/Redis/Command/Access.antt =====
-- Who may do what over a Redis connection.
use tokmesh_go.Base.{
  ◌≡◌, inl, inr, refl, ap, sym, ◌∙◌, Bool, true, false, Option, none, some, List, [], ◌∷◌, arith,
  Bool-cases, ℕ_discrete,
}
use tokmesh_go.Domain.Str.{Str, str_dec, bytes}
use tokmesh_go.Domain.Strings.{str_eq}
use tokmesh_go.Domain.ApiKey.{Role, metrics, validator, issuer, admin}
use tokmesh_go.Domain.ApiKey
use tokmesh_go.Redis.Command.{
  ApiKeyInfo, ConnState, Services, Syntax, no_auth, Reply, failure, Command, ping, auth, quit, get,
  set, del, expire, ttl, exists, scan, tm_create, tm_validate, tm_touch, tm_revoke_user, other,
  command_of, check_permission, role_allows, is_read,
}
use tokmesh_go.Redis.Command.Handlers.{handle_get, handle_ttl, handle_exists, handle_scan}
use tokmesh_go.Redis.Command.Handle.{handle_command, guarded, run_command, handle}

-- The commands that ask for no authentication.
abbrev pub is_open : Command → Bool
is_open ping = true
is_open auth = true
is_open quit = true
is_open _ = false

-- The commands that a validator may run and that change a session: they note its use.
abbrev pub notes_use : Command → Bool
notes_use tm_validate = true
notes_use tm_touch = true
notes_use _ = false

module _ (sv : Services) (syn : Syntax) (allowed : Bool) (ip : Str) (s : sv.State) where
  abbrev handled : ConnState → List Str → sv.State × Option ConnState × List Reply
  handled st args = handle sv syn allowed ip s st args

  handle_command-guarded :
      (st : ConnState) (c : Command) (args : List Str)
      → is_open c ≡ false
      → handle_command sv syn allowed ip s st c args ≡ guarded sv syn allowed ip s st c args
  unfolding handle_command
  handle_command-guarded st ping args h = absurd (ground (arith, h))
  handle_command-guarded st auth args h = absurd (ground (arith, h))
  handle_command-guarded st quit args h = absurd (ground (arith, h))
  handle_command-guarded st get args h = refl
  handle_command-guarded st set args h = refl
  handle_command-guarded st del args h = refl
  handle_command-guarded st expire args h = refl
  handle_command-guarded st ttl args h = refl
  handle_command-guarded st exists args h = refl
  handle_command-guarded st scan args h = refl
  handle_command-guarded st tm_create args h = refl
  handle_command-guarded st tm_validate args h = refl
  handle_command-guarded st tm_touch args h = refl
  handle_command-guarded st tm_revoke_user args h = refl
  handle_command-guarded st other args h = refl

  -- A connection that has not authenticated gets the reply NOAUTH to any command but PING, AUTH
  -- and QUIT, and the command leaves the services and the connection as they were.
  pub unauthenticated_refused :
      (st : ConnState) (name : Str) (args : List Str)
      → st.authenticated ≡ false
      → is_open (command_of (syn.to_upper name)) ≡ false
      → ◌≡◌ {A = sv.State × Option ConnState × List Reply}
          (handled st (name ∷ args))
          (s, some st, failure no_auth ∷ [])
  unfolding handle guarded
  unauthenticated_refused st name args out closed =
      handle_command-guarded st (command_of (syn.to_upper name)) args closed ∙ ground (arith, out)

  get-state : (args : List Str) → (handle_get sv syn s args).0 ≡ s
  unfolding handle_get
  get-state [] = refl
  get-state (id ∷ []) = ground arith
  get-state (id ∷ x ∷ l) = refl

  ttl-state : (args : List Str) → (handle_ttl sv syn s args).0 ≡ s
  unfolding handle_ttl
  ttl-state [] = refl
  ttl-state (id ∷ []) = ground arith
  ttl-state (id ∷ x ∷ l) = refl

  exists-state : (args : List Str) → (handle_exists sv syn s args).0 ≡ s
  unfolding handle_exists
  exists-state [] = refl
  exists-state (id ∷ l) = refl

  scan-state : (args : List Str) → (handle_scan sv syn s args).0 ≡ s
  unfolding handle_scan
  scan-state [] = refl
  scan-state (c ∷ l) = ground arith

  -- A reading command leaves the state, if it does not note a use.
  read-state :
      (c : Command) (args : List Str)
      → is_read c ≡ true
      → notes_use c ≡ false
      → (run_command sv syn ip s c args).0 ≡ s
  unfolding run_command
  read-state ping args r n = refl
  read-state auth args r n = refl
  read-state quit args r n = refl
  read-state get args r n = get-state args
  read-state set args r n = absurd (ground (arith, r))
  read-state del args r n = absurd (ground (arith, r))
  read-state expire args r n = absurd (ground (arith, r))
  read-state ttl args r n = ttl-state args
  read-state exists args r n = exists-state args
  read-state scan args r n = scan-state args
  read-state tm_create args r n = absurd (ground (arith, r))
  read-state tm_validate args r n = absurd (ground (arith, n))
  read-state tm_touch args r n = absurd (ground (arith, n))
  read-state tm_revoke_user args r n = absurd (ground (arith, r))
  read-state other args r n = refl

  validator-read :
      (st : ConnState) (k : ApiKeyInfo) (c : Command)
      → st.api_key ≡ some k
      → k.role ≡ bytes "validator"
      → check_permission st c ≡ true
      → is_read c ≡ true
  unfolding check_permission role_allows str_eq
  validator-read st k c key role allowed_c =
      let at : role_allows (bytes "validator") c ≡ true =
        ap (λ r. role_allows r c) (sym role) ∙ ground (arith, key, allowed_c) in
      ground (arith, at)

  guarded-state :
      (st : ConnState) (c : Command) (args : List Str)
      → (check_permission st c ≡ true → (run_command sv syn ip s c args).0 ≡ s)
      → (guarded sv syn allowed ip s st c args).0 ≡ s
  unfolding guarded
  guarded-state st c args kept = elim (Bool-cases (check_permission st c)) [
    | inl yes_e ↦ ground (arith, yes_e, kept yes_e)
    | inr no_e ↦ ground (arith, no_e)
  ]

  -- On a connection whose key has the role of a validator, no command but AUTH, TM.VALIDATE and
  -- TM.TOUCH (and PING and QUIT, which call no service) changes the state of the services,
  -- whatever its arguments.
  pub validator_changes_nothing :
      (st : ConnState) (k : ApiKeyInfo) (name : Str) (args : List Str)
      → st.api_key ≡ some k
      → k.role ≡ bytes "validator"
      → is_open (command_of (syn.to_upper name)) ≡ false
      → notes_use (command_of (syn.to_upper name)) ≡ false
      → (handled st (name ∷ args)).0 ≡ s
  unfolding handle
  validator_changes_nothing st k name args key role closed quiet =
      let c = command_of (syn.to_upper name) in
      ap (λ (h : sv.State × Option ConnState × List Reply). h.0)
        (handle_command-guarded st c args closed)
      ∙ guarded-state st c args
          (λ can. read-state c args (validator-read st k c key role can) quiet)

-- The permission of domain.Permission that a command stands for; `none` for those that the tables do not name.
abbrev pub permission_of : Command → Option ApiKey.Permission
permission_of get = some (bytes "session.read")
permission_of ttl = some (bytes "session.read")
permission_of exists = some (bytes "session.read")
permission_of scan = some (bytes "session.list")
permission_of tm_validate = some (bytes "token.validate")
permission_of set = some (bytes "session.create")
permission_of tm_create = some (bytes "session.create")
permission_of expire = some (bytes "session.renew")
permission_of del = some (bytes "session.revoke")
permission_of tm_revoke_user = some (bytes "session.revoke_all")
permission_of _ = none

abbrev pub role_name : Role → Str
role_name metrics = bytes "metrics"
role_name validator = bytes "validator"
role_name issuer = bytes "issuer"
role_name admin = bytes "admin"
role_name (Role.other r) = r

abbrev pub is_known : Role → Bool
is_known (Role.other r) = false
is_known _ = true

-- What the table of domain.Permission says of a command; what it does not name is left as the server has it.
abbrev pub table_allows : Role → Command → Bool
table_allows r c = elim (permission_of c) [
  | none ↦ role_allows (role_name r) c
  | some p ↦ ApiKey.has_permission r p
]

abbrev pub diverges : Role → Command → Bool
diverges issuer tm_revoke_user = true
diverges _ _ = false

abbrev Agrees : Command → Role → Type 0
Agrees c r = table_allows r c ≡ role_allows (role_name r) c

on_roles :
    (c : Command)
    → Agrees c metrics
    → Agrees c validator
    → Agrees c issuer
    → Agrees c admin
    → (r : Role) → is_known r ≡ true
    → Agrees c r
on_roles c m v i a metrics k = m
on_roles c m v i a validator k = v
on_roles c m v i a issuer k = i
on_roles c m v i a admin k = a
on_roles c m v i a (Role.other r) k = absurd (ground (arith, k))

revoke_user-roles :
    (r : Role) → is_known r ≡ true → diverges r tm_revoke_user ≡ false → Agrees tm_revoke_user r
unfolding role_allows str_eq ApiKey.has_permission ApiKey.contains ApiKey.role_permissions str_dec
    ℕ_discrete
revoke_user-roles metrics k d = refl
revoke_user-roles validator k d = refl
revoke_user-roles issuer k d = absurd (ground (arith, d))
revoke_user-roles admin k d = refl
revoke_user-roles (Role.other r) k d = absurd (ground (arith, k))

-- For each of the four roles and each command that stands for a permission of the domain, the
-- server allows the command exactly if the role has the permission, but for TM.REVOKE_USER by an
-- issuer.
pub role_allows-has_permission :
    (r : Role) (c : Command)
    → is_known r ≡ true
    → diverges r c ≡ false
    → table_allows r c ≡ role_allows (role_name r) c
unfolding role_allows str_eq ApiKey.has_permission ApiKey.contains ApiKey.role_permissions str_dec
    ℕ_discrete
role_allows-has_permission r ping k d = refl
role_allows-has_permission r auth k d = refl
role_allows-has_permission r quit k d = refl
role_allows-has_permission r get k d = on_roles get refl refl refl refl r k
role_allows-has_permission r set k d = on_roles set refl refl refl refl r k
role_allows-has_permission r del k d = on_roles del refl refl refl refl r k
role_allows-has_permission r expire k d = on_roles expire refl refl refl refl r k
role_allows-has_permission r ttl k d = on_roles ttl refl refl refl refl r k
role_allows-has_permission r exists k d = on_roles exists refl refl refl refl r k
role_allows-has_permission r scan k d = on_roles scan refl refl refl refl r k
role_allows-has_permission r tm_create k d = on_roles tm_create refl refl refl refl r k
role_allows-has_permission r tm_validate k d = on_roles tm_validate refl refl refl refl r k
role_allows-has_permission r tm_touch k d = refl
role_allows-has_permission r tm_revoke_user k d = revoke_user-roles r k d
role_allows-has_permission r other k d = refl

-- An issuer may revoke all sessions of a user over Redis, for which its role has no permission.
pub issuer_revokes_user :
    (role_allows (role_name issuer) tm_revoke_user ≡ true)
    × (table_allows issuer tm_revoke_user ≡ false)
unfolding role_allows str_eq ApiKey.has_permission ApiKey.contains ApiKey.role_permissions str_dec
    ℕ_discrete
issuer_revokes_user = (refl, refl)
