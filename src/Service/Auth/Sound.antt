-- ===== src/Service/Auth/Sound.antt =====
-- What a validated key is, and what a disabled key is good for.
use tokmesh_go.Base.{
  ℕ, ◌+◌, ◌≡◌, ap, ◌∙◌, false, ◌&&◌, ◌||◌, none, some, ltb, arith, inl, inr, Option-cases,
}
use tokmesh_go.GoMap
use tokmesh_go.GoMap.Laws as MapLaws
use tokmesh_go.Domain.Str.{Str, str_dec, is_empty}
use tokmesh_go.Domain.Error.{ok, err, api_key_disabled}
use tokmesh_go.Domain.ApiKey.{
  ApiKey, disabled, rotate_secret, is_in_grace_period, grace_period_duration,
}
use tokmesh_go.Memory.ApiKeyStore
use tokmesh_go.Memory.ApiKeyStore.{ApiKeyStore}
use tokmesh_go.Service.Auth.{
  AuthService, Checks, Request, validate_api_key, begin, load, check_stored, update_api_key_status,
  store_key, has_secret, verify_secret_hash,
}
use tokmesh_go.Service.Auth.Cache
use tokmesh_go.Service.Auth.Cache.{find}
use tokmesh_go.Service.Auth.Cache.Laws.{IsUnique, find-remove}

-- Each key is stored under its ID.
abbrev pub IsKeyed : ApiKeyStore → Type 0
IsKeyed repo = (id : Str) (k : ApiKey) → GoMap.get str_dec repo id ≡ some k → k.key_id ≡ id

-- the store and the cache after a key was disabled
module _ (s : AuthService) (id : Str) (keyed : IsKeyed s.repo) (u : IsUnique s.cache.order) where
  disabled_state :
      (update_api_key_status s id false).1 ≡ ok tt
      → (k : ApiKey) × (GoMap.get str_dec (update_api_key_status s id false).0.repo id
          ≡ some (record k { status = disabled }))
        × (find (update_api_key_status s id false).0.cache.order id ≡ none)
  unfolding update_api_key_status store_key ApiKeyStore.get ApiKeyStore.update Cache.delete
  disabled_state done = elim (Option-cases (GoMap.get str_dec s.repo id)) [
    | inl e ↦ absurd (ground (arith, e, done))
    | inr (k, e) ↦ (
      k,
      ground (
        arith,
        e,
        keyed id k e,
        MapLaws.get-set str_dec s.repo id (record k { status = disabled }) id,
      ),
      ground (arith, e, keyed id k e, find-remove s.cache.order id id u),
    )
  ]

  module _ (checks : Checks) where
    begin-disabled :
        (t : AuthService) (k : ApiKey) (now : ℕ) (req : Request)
        → GoMap.get str_dec t.repo req.key_id ≡ some (record k { status = disabled })
        → find t.cache.order req.key_id ≡ none
        → (validate_api_key checks now t req).1 ≡ err api_key_disabled
    unfolding validate_api_key begin load check_stored Cache.get ApiKeyStore.get
    begin-disabled t k now req there empty = ground (arith, there, empty)

    -- On a service whose keys are stored under their IDs and whose cache has one entry to a key:
    -- after `UpdateAPIKeyStatus` disabled a key and succeeded, `ValidateAPIKey` of its ID reports
    -- a disabled key, whatever the secret, the address and the time, and whatever the cache held
    -- before.
    pub disabled_refused :
        (now : ℕ) (req : Request)
        → (update_api_key_status s id false).1 ≡ ok tt
        → req.key_id ≡ id
        → (validate_api_key checks now (update_api_key_status s id false).0 req).1
          ≡ err api_key_disabled
    disabled_refused now req done same =
        let (k, there, empty) = disabled_state done in
        begin-disabled (update_api_key_status s id false).0 k now req
          (ap (GoMap.get str_dec (update_api_key_status s id false).0.repo) same ∙ there)
          (ap (find (update_api_key_status s id false).0.cache.order) same ∙ empty)

module _ (checks : Checks) where
  -- After a rotation of a key whose secret hash is not empty, a secret is accepted exactly if it
  -- has the new hash, or it has the old hash and the time is within 24 hours of the rotation.
  pub has_secret-rotate_secret :
      (time now : ℕ) (new_hash : Str) (k : ApiKey) (req : Request)
      → is_empty k.secret_hash ≡ false
      → has_secret checks now req (rotate_secret time new_hash k) ≡ (
          checks.verify req.key_secret new_hash
          || (ltb now (time + grace_period_duration) && checks.verify req.key_secret k.secret_hash))
  unfolding verify_secret_hash rotate_secret is_in_grace_period
  has_secret-rotate_secret time now new_hash k req full = ground (arith, full)
