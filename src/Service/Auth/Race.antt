-- ===== src/Service/Auth/Race.antt =====
-- `ValidateAPIKey` beside a change of the key: it writes back the key that it read.
use tokmesh_go.Base.{
  ℕ, ◌/◌, ◌≡◌, refl, ap, sym, subst, ◌∙◌, true, false, some, arith, inl, inr, Option-cases,
  Bool-cases,
}
use tokmesh_go.GoMap
use tokmesh_go.GoMap.Laws as MapLaws
use tokmesh_go.Domain.Str.{Str, str_dec}
use tokmesh_go.Domain.Error.{Result, ok, Result-cases}
use tokmesh_go.Domain.ApiKey
use tokmesh_go.Domain.ApiKey.{
  ApiKey, disabled, active, is_in_grace_period, is_status_active, is_expired, is_active,
  is_disabled,
}
use tokmesh_go.Memory.ApiKeyStore
use tokmesh_go.Memory.ApiKeyStore.{ApiKeyStore}
use tokmesh_go.Service.Auth.{
  AuthService, Checks, Request, validate_api_key, begin, load, save, check_stored, check_cached,
  check_ip_allowlist, update_api_key_status, store_key, has_secret, Step, to_save,
}
use tokmesh_go.Service.Auth.Cache
use tokmesh_go.Service.Auth.Cache.{find}
use tokmesh_go.Service.Auth.Sound.{IsKeyed}

module _ (checks : Checks) where
  -- what the checks of a stored key tell
  check_stored-ok :
      (now : ℕ) (s : AuthService) (req : Request) (k : ApiKey)
      → check_stored checks now s req k ≡ ok tt
      → (is_status_active k.status ≡ true)
        × (is_expired now k ≡ false)
        × (check_ip_allowlist checks s.global_allow req.client_ip k.allowlist ≡ ok tt)
        × (has_secret checks now req k ≡ true)
  unfolding check_stored
  check_stored-ok now s req k h =
      elim (Result-cases (check_ip_allowlist checks s.global_allow req.client_ip k.allowlist)) [
        | inl (a, e) ↦ (ground (arith, h), ground (arith, h), e, ground (arith, e, h))
        | inr (c, e) ↦ absurd (ground (arith, e, h))
      ]

  load-to_save :
      (now : ℕ) (s : AuthService) (req : Request) (k : ApiKey)
      → (load checks now s req).1 ≡ to_save k
      → (k0 : ApiKey) × (GoMap.get str_dec s.repo req.key_id ≡ some k0)
        × (k ≡ ApiKey.touch now k0)
        × (check_stored checks now s req k0 ≡ ok tt)
        × ((load checks now s req).0 ≡ s)
  unfolding load ApiKeyStore.get
  load-to_save now s req k h = elim (Option-cases (GoMap.get str_dec s.repo req.key_id)) [
    | inl e ↦ absurd (ground (arith, e, h))
    | inr (k0, e) ↦ elim (Result-cases (check_stored checks now s req k0)) [
      | inl (a, f) ↦ (k0, e, ground (arith, e, f, h), f, ground (arith, e, f))
      | inr (c, f) ↦ absurd (ground (arith, e, f, h))
    ]
  ]

  -- the service after the look into the cache
  abbrev looked : ℕ → AuthService → Request → AuthService
  looked now_ns s req = record s { cache = (Cache.get now_ns s.cache req.key_id).0 }

  -- the first part, when a key is still to be saved, has read it from the store
  begin-load :
      (now_ns : ℕ) (s : AuthService) (req : Request) (k : ApiKey)
      → (begin checks now_ns s req).1 ≡ to_save k
      → ◌≡◌ {A = AuthService × Step}
          (begin checks now_ns s req)
          (load checks (now_ns / 1000000) (looked now_ns s req) req)
  unfolding begin
  begin-load now_ns s req k h = elim (Option-cases (Cache.get now_ns s.cache req.key_id).1) [
    | inl e ↦ ground (arith, e)
    | inr (x, e) ↦ elim (Bool-cases (has_secret checks (now_ns / 1000000) req x)) [
      | inr wrong ↦ ground (arith, e, wrong)
      | inl right ↦
          elim (Result-cases (check_cached checks (now_ns / 1000000) (looked now_ns s req) req x)) [
            | inl (a, f) ↦ absurd (ground (arith, e, right, f, h))
            | inr (c, f) ↦ absurd (ground (arith, e, right, f, h))
          ]
    ]
  ]

  begin-to_save :
      (now_ns : ℕ) (s : AuthService) (req : Request) (k : ApiKey)
      → (begin checks now_ns s req).1 ≡ to_save k
      → (k0 : ApiKey) × (GoMap.get str_dec s.repo req.key_id ≡ some k0)
        × (k ≡ ApiKey.touch (now_ns / 1000000) k0)
        × (check_stored checks (now_ns / 1000000) (looked now_ns s req) req k0 ≡ ok tt)
        × ((begin checks now_ns s req).0 ≡ looked now_ns s req)
  begin-to_save now_ns s req k h =
      let same = begin-load now_ns s req k h in
      let (k0, there, touched, fine, state) =
        load-to_save (now_ns / 1000000) (looked now_ns s req) req k
          (sym (ap (λ p. p.1) same) ∙ h) in
      (k0, there, touched, fine, ap (λ p. p.0) same ∙ state)

  -- a cached key that passes the checks is accepted
  validate_api_key-cached :
      (now_ns : ℕ) (t : AuthService) (req : Request) (k : ApiKey)
      → (Cache.get now_ns t.cache req.key_id).1 ≡ some k
      → is_status_active k.status ≡ true
      → is_expired (now_ns / 1000000) k ≡ false
      → check_ip_allowlist checks t.global_allow req.client_ip k.allowlist ≡ ok tt
      → has_secret checks (now_ns / 1000000) req k ≡ true
      → (validate_api_key checks now_ns t req).1 ≡ ok (ApiKey.touch (now_ns / 1000000) k)
  unfolding validate_api_key begin check_cached is_active
  validate_api_key-cached now_ns t req k hit status fresh allowed secret =
      ground (arith, hit, status, fresh, allowed, secret)

  -- a key that was just put in the cache is found there
  get-set :
      (now : ℕ) (c : Cache.ApiKeyCache) (id : Str) (k : ApiKey)
      → (Cache.get now (Cache.set now c id k) id).1 ≡ some k
  unfolding Cache.get Cache.set find
  get-set now c id k = elim (Option-cases (find c.order id)) [
    | inl e ↦ ground (arith, e)
    | inr (x, e) ↦ ground (arith, e)
  ]

  -- `UpdateAPIKeyStatus` that disables the key between the two parts of `ValidateAPIKey`
  abbrev pub disabled_meanwhile : ℕ → AuthService → Request → AuthService × Result (Unit {0})
  disabled_meanwhile now_ns s req =
      update_api_key_status (begin checks now_ns s req).0 req.key_id false

  disabled-state :
      (v : AuthService) (k0 : ApiKey) (id : Str)
      → GoMap.get str_dec v.repo id ≡ some k0
      → k0.key_id ≡ id
      → ◌≡◌ {A = AuthService × Result (Unit {0})} (update_api_key_status v id false) (
        record v {
          repo = GoMap.set str_dec v.repo k0.key_id (record k0 { status = disabled });
          cache = Cache.delete v.cache id;
        },
        ok tt,
      )
  unfolding update_api_key_status store_key ApiKeyStore.get ApiKeyStore.update
  disabled-state v k0 id there keyed =
      let at_id : GoMap.get str_dec v.repo k0.key_id ≡ some k0 =
        ap (GoMap.get str_dec v.repo) keyed ∙ there in
      ground (arith, there, at_id)

  save-repo :
      (now_ns : ℕ) (v : AuthService) (k0 k1 k : ApiKey) (id : Str) (cache : Cache.ApiKeyCache)
      → k0.key_id ≡ id
      → k.key_id ≡ id
      → GoMap.get str_dec
          (save now_ns
            (record v { repo = GoMap.set str_dec v.repo k0.key_id k1; cache = cache })
            id
            k).repo
          id
        ≡ some k
  unfolding save ApiKeyStore.update
  save-repo now_ns v k0 k1 k id cache keyed same =
      let there : GoMap.get str_dec (GoMap.set str_dec v.repo k0.key_id k1) k.key_id ≡ some k1 =
        ground (arith, keyed, same, MapLaws.get-set str_dec v.repo k0.key_id k1 k.key_id) in
      ground (
        arith,
        there,
        same,
        MapLaws.get-set str_dec (GoMap.set str_dec v.repo k0.key_id k1) k.key_id k id,
      )

  -- what the theorem says of the service after the key was disabled
  Undone : ℕ → Request → ApiKey → AuthService × Result (Unit {0}) → Type 0
  Undone now_ns req k p =
      (p.1 ≡ ok tt)
      × (GoMap.get str_dec (save now_ns p.0 req.key_id k).repo req.key_id ≡ some k)
      × (is_status_active k.status ≡ true)
      × ((validate_api_key checks now_ns (save now_ns p.0 req.key_id k) req).1
          ≡ ok (ApiKey.touch (now_ns / 1000000) k))

  touch-Undone :
      (now_ns : ℕ) (v : AuthService) (req : Request) (k0 : ApiKey)
      → k0.key_id ≡ req.key_id
      → check_stored checks (now_ns / 1000000) v req k0 ≡ ok tt
      → Undone now_ns req (ApiKey.touch (now_ns / 1000000) k0) (
        record v {
          repo = GoMap.set str_dec v.repo k0.key_id (record k0 { status = disabled });
          cache = Cache.delete v.cache req.key_id;
        },
        ok tt,
      )
  unfolding Undone ApiKey.touch save is_expired is_in_grace_period
  touch-Undone now_ns v req k0 id fine =
      let (status, fresh, allowed, secret) = check_stored-ok (now_ns / 1000000) v req k0 fine in
      let k = ApiKey.touch (now_ns / 1000000) k0 in
      let after : AuthService = record v {
        repo = GoMap.set str_dec v.repo k0.key_id (record k0 { status = disabled });
        cache = Cache.delete v.cache req.key_id;
      } in
      (
        refl,
        save-repo now_ns v k0 (record k0 { status = disabled }) k req.key_id
            (Cache.delete v.cache req.key_id) id id,
        status,
        validate_api_key-cached now_ns (save now_ns after req.key_id k) req k
            (get-set now_ns (Cache.delete v.cache req.key_id) req.key_id k) status fresh allowed
            secret,
      )

  -- If a key is disabled between the checks of a `ValidateAPIKey` that goes on to write the key
  -- back and that write, on a service whose keys are stored under their IDs: the disabling
  -- succeeds, and afterwards the stored key is the active one that was read, and the next
  -- `ValidateAPIKey` of the request at that time accepts it.
  pub disable_undone :
      (now_ns : ℕ) (s : AuthService) (req : Request) (k : ApiKey)
      → IsKeyed s.repo
      → (begin checks now_ns s req).1 ≡ to_save k
      → ((disabled_meanwhile now_ns s req).1 ≡ ok tt)
        × (GoMap.get str_dec
              (save now_ns (disabled_meanwhile now_ns s req).0 req.key_id k).repo
              req.key_id
            ≡ some k)
        × (is_status_active k.status ≡ true)
        × ((validate_api_key checks now_ns
              (save now_ns (disabled_meanwhile now_ns s req).0 req.key_id k)
              req).1
            ≡ ok (ApiKey.touch (now_ns / 1000000) k))
  unfolding Undone
  disable_undone now_ns s req k keyed h =
      let (k0, there, touched, fine, state) = begin-to_save now_ns s req k h in
      let id = keyed req.key_id k0 there in
      let v = looked now_ns s req in
      let disabled_as =
        ap (λ t. update_api_key_status t req.key_id false) state
        ∙ disabled-state v k0 req.key_id there id in
      subst (Undone now_ns req k) (sym disabled_as) (
        subst
          (λ x. Undone now_ns req x (
            record v {
              repo = GoMap.set str_dec v.repo k0.key_id (record k0 { status = disabled });
              cache = Cache.delete v.cache req.key_id;
            },
            ok tt,
          ))
          (sym touched) (touch-Undone now_ns v req k0 id fine))
