-- ===== src/Service/Auth.antt =====
-- `AuthService` over the in-memory key store (src/internal/core/service/auth.go). The rate limiters are left out:
-- they are a library's.
pub mod Cache
pub mod Secret
pub mod Sound
pub mod Race
mod Tests
use tokmesh_go.Base.{
  ℕ, ◌+◌, Bool, true, false, not, ◌&&◌, ◌||◌, Option, none, some, List, [], ◌∷◌, ◌++◌, ite, length,
  ltb, if◌then◌else◌, ◌==◌, ◌/◌,
}
use tokmesh_go.Domain.Str.{Str, str_dec, is_empty, bytes}
use tokmesh_go.Domain.Error.{
  Result, ok, err, api_key_not_found, api_key_disabled, api_key_invalid, ip_not_allowed,
  permission_denied, storage_error,
}
use tokmesh_go.Domain.ApiKey
use tokmesh_go.Domain.ApiKey.{
  ApiKey, Role, KeyStatus, active, disabled, unknown, Permission, has_permission, is_expired,
  is_active, is_in_grace_period, rotate_secret, is_status_active, is_disabled, new_api_key,
}
use tokmesh_go.Memory.ApiKeyStore
use tokmesh_go.Memory.ApiKeyStore.{ApiKeyStore}
use tokmesh_go.Service.Auth.Cache
use tokmesh_go.Service.Auth.Cache.{ApiKeyCache}

-- What the service uses of the package `net`: an address parsed, a CIDR range parsed, and whether two
-- addresses are equal; and of the Argon2 comparison, whether a secret has a hash.
pub record Checks : Type 1 where
  pub Ip : Type 0
  pub parse_ip : Str → Option Ip
  pub parse_cidr : Str → Option (Ip → Bool)
  pub equal : Ip → Ip → Bool
  pub verify : Str → Str → Bool

pub record AuthService : Type 0 where
  pub repo : ApiKeyStore
  pub cache : ApiKeyCache
  pub global_allow : List Str

pub record Request : Type 0 where
  pub key_id : Str
  pub key_secret : Str
  pub client_ip : Str

-- What the first part of `ValidateAPIKey` comes to: an answer, or a key that is still to be saved.
pub data Step : Type 0 where
  answered : Result ApiKey → Step
  to_save : ApiKey → Step

-- `strings.Contains(entry, "/")`
unfoldable pub has_slash : Str → Bool
has_slash [] = false
has_slash (b ∷ s) = let rest = has_slash s in if b == 47 then true else rest

-- `CheckPermission`
unfoldable pub check_permission : ApiKey → Permission → Result (Unit {0})
check_permission key perm = if has_permission key.role perm then ok tt else err permission_denied

-- the end of `ValidateAPIKey`: an error of the store is passed over
unfoldable pub save : ℕ → AuthService → Str → ApiKey → AuthService
save now_ns s id k = record s {
  repo = (ApiKeyStore.update s.repo k).0;
  cache = Cache.set now_ns s.cache id k;
}

module _ (checks : Checks) where
  -- whether an entry of an allowlist matches
  unfoldable pub matches : checks.Ip → Str → Bool
  matches ip entry =
      if has_slash entry
      then elim (checks.parse_cidr entry) [ none ↦ false | some within ↦ within ip ]
      else elim (checks.parse_ip entry) [ none ↦ false | some allowed ↦ checks.equal allowed ip ]

  -- the loop of `checkIPAllowlist`
  unfoldable pub any_matches : checks.Ip → List Str → Bool
  any_matches ip [] = false
  any_matches ip (entry ∷ allowlist) =
      let rest = any_matches ip allowlist in if matches ip entry then true else rest

  -- `checkIPAllowlist`
  unfoldable pub check_ip_allowlist : List Str → Str → List Str → Result (Unit {0})
  check_ip_allowlist global_allow client_ip key_allowlist =
      let allowlist = global_allow ++ key_allowlist in
      if length allowlist == 0 then ok tt else elim (checks.parse_ip client_ip) [
        | none ↦ err ip_not_allowed
        | some ip ↦ if any_matches ip allowlist then ok tt else err ip_not_allowed
      ]

  -- `verifySecretHash`
  unfoldable pub verify_secret_hash : Str → Str → Str → Bool → Bool
  verify_secret_hash secret current_hash old_hash in_grace_period =
      checks.verify secret current_hash
      || (if in_grace_period && not (is_empty old_hash)
          then checks.verify secret old_hash
          else false)

  abbrev pub has_secret : ℕ → Request → ApiKey → Bool
  has_secret now req k =
      verify_secret_hash req.key_secret k.secret_hash k.old_secret_hash (is_in_grace_period now k)

  -- a cached key whose secret matches
  unfoldable pub check_cached : ℕ → AuthService → Request → ApiKey → Result (Unit {0})
  check_cached now s req k =
      if not (is_active now k) && (is_disabled k.status || is_expired now k)
      then if is_disabled k.status then err api_key_disabled else err api_key_invalid
      else check_ip_allowlist s.global_allow req.client_ip k.allowlist

  -- the checks of a key that was read from the store, in order
  unfoldable pub check_stored : ℕ → AuthService → Request → ApiKey → Result (Unit {0})
  check_stored now s req k =
      if not (is_status_active k.status)
      then err api_key_disabled
      else if is_expired now k
      then err api_key_invalid
      else elim (check_ip_allowlist s.global_allow req.client_ip k.allowlist) [
        | err c ↦ err c
        | ok _ ↦ if has_secret now req k then ok tt else err api_key_invalid
      ]

  -- `ValidateAPIKey` from the read of the store to the check of the secret
  unfoldable pub load : ℕ → AuthService → Request → AuthService × Step
  load now s req = elim (ApiKeyStore.get s.repo req.key_id) [
    | err _ ↦ (s, answered (err api_key_not_found))
    | ok k ↦ elim (check_stored now s req k) [
      | err c ↦ (s, answered (err c))
      | ok _ ↦ (s, to_save (ApiKey.touch now k))
    ]
  ]

  -- `ValidateAPIKey` up to the write to the store; the cache's clock is in nanoseconds
  unfoldable pub begin : ℕ → AuthService → Request → AuthService × Step
  begin now_ns s req =
      let now = now_ns / 1000000 in
      let r = Cache.get now_ns s.cache req.key_id in
      let t = record s { cache = r.0 } in
      elim r.1 [
        | none ↦ load now t req
        | some k ↦
            if has_secret now req k
            then elim (check_cached now t req k) [
              | err c ↦ (t, answered (err c))
              | ok _ ↦ (
                record t { cache = Cache.touch_front r.0 (ApiKey.touch now k) },
                answered (ok (ApiKey.touch now k)),
              )
            ]
            else load now t req
      ]

  -- `ValidateAPIKey`
  unfoldable pub validate_api_key : ℕ → AuthService → Request → AuthService × Result ApiKey
  validate_api_key now_ns s req =
      let r = begin now_ns s req in
      elim r.1 [ answered a ↦ (r.0, a) | to_save k ↦ (save now_ns r.0 req.key_id k, ok k) ]

-- `CreateAPIKey`, with the ID and the hash that `NewAPIKey` makes
unfoldable pub create_api_key :
    ℕ → Str → Str → AuthService → Str → Role → Str → AuthService × Result (Unit {0})
create_api_key now key_id secret_hash s name role description =
    let r =
      ApiKeyStore.create s.repo
        (record (new_api_key now key_id secret_hash name role) { description = description }) in
    elim r.1 [
      | err _ ↦ (record s { repo = r.0 }, err storage_error)
      | ok _ ↦ (record s { repo = r.0 }, ok tt)
    ]

-- the write of `UpdateAPIKeyStatus` and `RotateAPIKey`: the key is stored, and taken out of the cache
unfoldable pub store_key : AuthService → Str → ApiKey → AuthService × Result (Unit {0})
store_key s key_id key =
    let r = ApiKeyStore.update s.repo key in
    elim r.1 [
      | err _ ↦ (record s { repo = r.0 }, err storage_error)
      | ok _ ↦ (record s { repo = r.0; cache = Cache.delete s.cache key_id }, ok tt)
    ]

-- `UpdateAPIKeyStatus`
unfoldable pub update_api_key_status : AuthService → Str → Bool → AuthService × Result (Unit {0})
update_api_key_status s key_id enabled = elim (ApiKeyStore.get s.repo key_id) [
  | err _ ↦ (s, err api_key_not_found)
  | ok k ↦ store_key s key_id (record k { status = if enabled then active else disabled })
]

-- `RotateAPIKey`, with the hash of the new secret
unfoldable pub rotate_api_key : ℕ → Str → AuthService → Str → AuthService × Result (Unit {0})
rotate_api_key now new_hash s key_id = elim (ApiKeyStore.get s.repo key_id) [
  | err _ ↦ (s, err api_key_not_found)
  | ok k ↦ store_key s key_id (rotate_secret now new_hash k)
]
