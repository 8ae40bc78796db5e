-- ===== src/Domain/ApiKey.antt =====
-- `APIKey`, its roles and their permissions (src/internal/core/domain/apikey.go). The clock is an argument, in
-- milliseconds; random bytes and the ULID are arguments of what uses them.
pub mod Permissions
use tokmesh_go.Base.{
  ℕ, ◌+◌, ◌*◌, ◌%◌, ◌^◌, Bool, true, false, not, ◌&&◌, ◌||◌, Option, none, some, List, [], ◌∷◌,
  ◌++◌, ite, length, ltb, leb, ◌==◌, if◌then◌else◌,
}
use tokmesh_go.Domain.Str.{Str, str_dec, is_empty, bytes}
use tokmesh_go.Domain.Error.{Result, ok, err, api_key_validation}

-- `Role`; `other` is any other string.
pub data Role : Type 0 where
  metrics validator issuer admin : Role
  other : Str → Role

-- `KeyStatus`; `unknown` is any other string.
pub data KeyStatus : Type 0 where
  active disabled : KeyStatus
  unknown : Str → KeyStatus

-- `Permission`
abbrev pub Permission : Type 0
Permission = Str

-- `IsValidRole`
unfoldable pub is_valid_role : Role → Bool
is_valid_role (other r) = false
is_valid_role _ = true

-- `IsValidKeyStatus`
unfoldable pub is_valid_key_status : KeyStatus → Bool
is_valid_key_status (unknown s) = false
is_valid_key_status _ = true

-- `rolePermissions`
unfoldable pub role_permissions : Role → List Permission
role_permissions metrics = bytes "metrics.read" ∷ []
role_permissions validator =
    bytes "token.validate" ∷ bytes "session.read" ∷ bytes "session.list" ∷ bytes "metrics.read" ∷ []
role_permissions issuer =
    bytes "token.validate"
    ∷ bytes "session.create"
    ∷ bytes "session.read"
    ∷ bytes "session.renew"
    ∷ bytes "session.revoke"
    ∷ bytes "session.list"
    ∷ bytes "metrics.read"
    ∷ []
role_permissions admin =
    bytes "session.create"
    ∷ bytes "session.read"
    ∷ bytes "session.renew"
    ∷ bytes "session.revoke"
    ∷ bytes "session.revoke_all"
    ∷ bytes "session.list"
    ∷ bytes "token.validate"
    ∷ bytes "apikey.create"
    ∷ bytes "apikey.read"
    ∷ bytes "apikey.list"
    ∷ bytes "apikey.disable"
    ∷ bytes "apikey.enable"
    ∷ bytes "apikey.rotate"
    ∷ bytes "system.status"
    ∷ bytes "system.health"
    ∷ bytes "system.gc"
    ∷ bytes "system.backup"
    ∷ bytes "system.restore"
    ∷ bytes "system.config"
    ∷ bytes "metrics.read"
    ∷ []
role_permissions (other r) = []

-- the loop of `HasPermission`
unfoldable pub contains : List Permission → Permission → Bool
contains [] perm = false
contains (p ∷ permissions) perm =
    let rest = contains permissions perm in ite (str_dec p perm) true rest

-- `HasPermission`
unfoldable pub has_permission : Role → Permission → Bool
has_permission role perm = contains (role_permissions role) perm

-- `RoleHierarchy`
unfoldable pub role_hierarchy : Role → ℕ
role_hierarchy metrics = 1
role_hierarchy validator = 2
role_hierarchy issuer = 3
role_hierarchy admin = 4
role_hierarchy (other r) = 0

-- `IsRoleAtLeast`
unfoldable pub is_role_at_least : Role → Role → Bool
is_role_at_least role required = leb (role_hierarchy required) (role_hierarchy role)

pub record ApiKey : Type 0 where
  pub key_id : Str
  pub name : Str
  pub secret_hash : Str
  pub old_secret_hash : Str
  pub grace_period_end : ℕ
  pub role : Role
  pub allowlist : List Str
  pub rate_limit : ℕ
  pub expires_at : ℕ
  pub status : KeyStatus
  pub description : Str
  pub created_at : ℕ
  pub created_by : Str
  pub last_used : ℕ
  pub version : ℕ

-- `NewAPIKey`, with the ID and the hash of the secret that it makes
unfoldable pub new_api_key : ℕ → Str → Str → Str → Role → ApiKey
new_api_key now key_id secret_hash name role = record {
  key_id = key_id;
  name = name;
  secret_hash = secret_hash;
  old_secret_hash = [];
  grace_period_end = 0;
  role = role;
  allowlist = [];
  rate_limit = 1000;
  expires_at = 0;
  status = active;
  description = [];
  created_at = now;
  created_by = [];
  last_used = 0;
  version = 1;
}

unfoldable pub is_expired : ℕ → ApiKey → Bool
is_expired now k = if k.expires_at == 0 then false else ltb k.expires_at now

abbrev pub is_status_active : KeyStatus → Bool
is_status_active active = true
is_status_active _ = false

abbrev pub is_disabled : KeyStatus → Bool
is_disabled disabled = true
is_disabled _ = false

unfoldable pub is_active : ℕ → ApiKey → Bool
is_active now k = is_status_active k.status && not (is_expired now k)

unfoldable pub is_in_grace_period : ℕ → ApiKey → Bool
is_in_grace_period now k =
    if k.grace_period_end == 0 || is_empty k.old_secret_hash
    then false
    else ltb now k.grace_period_end

unfoldable pub touch : ℕ → ApiKey → ApiKey
touch now k = record k { last_used = now }

-- 24 hours in milliseconds
abbrev pub grace_period_duration : ℕ
grace_period_duration = 86400000

-- `RotateSecret`, with the hash of the new secret
unfoldable pub rotate_secret : ℕ → Str → ApiKey → ApiKey
rotate_secret now new_hash k = record k {
  old_secret_hash = k.secret_hash;
  secret_hash = new_hash;
  grace_period_end = now + grace_period_duration;
  version = (k.version + 1) % 2 ^ 64;
}

-- `Validate`; whether the ID has the format of an API key's is an argument, with its ULID.
unfoldable pub validate : (Str → Bool) → ApiKey → Result (Unit {0})
validate is_valid_id k =
    if is_empty k.key_id
      || not (is_valid_id k.key_id)
      || is_empty k.secret_hash
      || not (is_valid_role k.role)
      || not (is_valid_key_status k.status)
      || ltb 100 (length k.allowlist)
      || (ltb k.rate_limit 1 || ltb 1000000 k.rate_limit)
      || ltb 256 (length k.description)
    then err api_key_validation
    else ok tt
