-- ===== src/Service/Auth/Tests.antt =====
-- Keys that are validated, and instances of the theorems of the authentication.
use tokmesh_go.Base.{
  ap, ◌-◌, ◌+◌, ◌≡◌, refl, true, false, none, some, [], ◌∷◌, ite, length, replicate, arith,
  ℕ_discrete, dec_lt, length-replicate,
}
use tokmesh_go.GoMap
use tokmesh_go.Domain.Str.{Str, str_dec, bytes}
use tokmesh_go.Domain.Error.{ok, err, api_key_disabled}
use tokmesh_go.Domain.ApiKey
use tokmesh_go.Domain.ApiKey.{
  ApiKey, issuer, validator, admin, new_api_key, has_permission, rotate_secret, is_status_active,
  grace_period_duration, role_permissions, contains, is_role_at_least, role_hierarchy,
}
use tokmesh_go.Memory.ApiKeyStore
use tokmesh_go.Service.Auth.{
  AuthService, Checks, Request, validate_api_key, begin, save, update_api_key_status, load,
  check_stored, check_ip_allowlist, verify_secret_hash, store_key, any_matches, matches, has_slash,
}
use tokmesh_go.Service.Auth.Cache
use tokmesh_go.Service.Auth.Sound.{IsKeyed, disabled_refused}
use tokmesh_go.Service.Auth.Race.{disable_undone, disabled_meanwhile}
use tokmesh_go.Service.Auth.Secret.{Argon, is_plain}

-- addresses that are equal as texts, no ranges, and secrets that are their own hashes
abbrev checks : Checks
checks = record {
  Ip = Str;
  parse_ip = λ s. some s;
  parse_cidr = λ s. none;
  equal = λ a b. ite (str_dec a b) true false;
  verify = λ secret hash. ite (str_dec secret hash) true false;
}

abbrev ops_key : ApiKey
ops_key = new_api_key 1000 (bytes "tmak-1") (bytes "s1") (bytes "ops") issuer

abbrev service : AuthService
service = record {
  repo = (bytes "tmak-1", ops_key) ∷ [];
  cache = Cache.new_api_key_cache 2 60000000000;
  global_allow = bytes "10.0.0.1" ∷ [];
}

abbrev request : Request
request = record { key_id = bytes "tmak-1"; key_secret = bytes "s1"; client_ip = bytes "10.0.0.1" }

service-IsKeyed : IsKeyed service.repo
unfolding GoMap.get new_api_key
service-IsKeyed id k h = elim (str_dec (bytes "tmak-1") id) [
  | yes p ↦ ground (arith, p, h)
  | no p ↦ absurd (ground (arith, p, h))
]

disabled_refused_example :
    (validate_api_key checks 5000000000
      (update_api_key_status service (bytes "tmak-1") false).0
      request).1
    ≡ err api_key_disabled
unfolding Cache.new_api_key_cache update_api_key_status store_key ApiKeyStore.get ApiKeyStore.update
    GoMap.get str_dec ℕ_discrete dec_lt new_api_key
disabled_refused_example =
    disabled_refused service (bytes "tmak-1") service-IsKeyed tt checks 5000000000 request refl refl

abbrev read_key : ApiKey
read_key = record ops_key { last_used = 5000 }

disable_undone_example :
    ((disabled_meanwhile checks 5000000000 service request).1 ≡ ok tt)
    × (GoMap.get str_dec
          (save 5000000000
            (disabled_meanwhile checks 5000000000 service request).0
            request.key_id
            read_key).repo
          request.key_id
        ≡ some read_key)
    × (is_status_active read_key.status ≡ true)
    × ((validate_api_key checks 5000000000
          (save 5000000000
            (disabled_meanwhile checks 5000000000 service request).0
            request.key_id
            read_key)
          request).1
        ≡ ok (ApiKey.touch 5000 read_key))
unfolding begin load check_stored check_ip_allowlist verify_secret_hash Cache.get Cache.find
    Cache.new_api_key_cache ApiKeyStore.get GoMap.get str_dec ℕ_discrete dec_lt new_api_key
    ApiKey.is_expired any_matches matches has_slash ApiKey.touch
disable_undone_example =
    disable_undone checks 5000000000 service request read_key service-IsKeyed refl

-- a key of one repeated byte, and an encoding that moves every byte past the dollar sign
abbrev shift : Str → Str
shift [] = []
shift (b ∷ s) = (b + 37) ∷ shift s

abbrev unshift : Str → Str
unshift [] = []
unshift (b ∷ s) = (b - 37) ∷ unshift s

unshift-shift : (s : Str) → unshift (shift s) ≡ s
unshift-shift [] = refl
unshift-shift (b ∷ s) = ground (arith, unshift-shift s)

is_plain-shift : (s : Str) → is_plain (shift s) ≡ true
unfolding is_plain
is_plain-shift [] = refl
is_plain-shift (b ∷ s) = ground (arith, is_plain-shift s)

abbrev argon : Argon
argon = record {
  id_key = λ secret salt n. replicate n (length secret);
  encode = shift;
  decode = λ s. some (unshift s);
  length-id_key = λ secret salt n. length-replicate n (length secret);
  decode-encode = λ s. ap some (unshift-shift s);
  is_plain-encode = is_plain-shift;
}
