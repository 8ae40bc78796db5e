-- ===== src/Domain/Error.antt =====
-- The errors of src/internal/core/domain/errors.go by their codes, which are what `errors.Is` and
-- `IsDomainError` compare. Messages, details and causes are not modelled: no code branches on them.
use tokmesh_go.Base.{◌≡◌, ◌⊎◌, inl, inr, refl, Bool, true, false, ite}

pub data Code : Type 0 where
  session_not_found session_expired session_conflict session_version_conflict : Code
  session_validation session_quota_exceeded : Code
  token_malformed token_invalid token_expired token_revoked token_hash_conflict : Code
  api_key_missing api_key_invalid api_key_disabled timestamp_skew nonce_replay : Code
  permission_denied ip_not_allowed api_key_validation api_key_not_found api_key_conflict : Code
  internal_server storage_error service_unavailable bad_request rate_limited : Code
  invalid_argument missing_argument argument_conflict : Code
  admin_permission_denied admin_ip_not_allowed admin_resource_not_found : Code
  admin_operation_conflict : Code

code_dec : Discrete Code
code_dec = hlevel

-- A value, or the error that a function returns in its place.
pub data Result {ℓ} (A : Type ℓ) : Type ℓ where
  err : Code → Result A
  ok : A → Result A

-- `if err != nil { return err }` after a call.
infixl 8 ◌>>=◌
abbrev pub ◌>>=◌ {ℓ} : {A B : Type ℓ} → Result A → (A → Result B) → Result B
◌>>=◌ (err c) next = err c
◌>>=◌ (ok a) next = next a

pub Result-cases {ℓ} :
    {A : Type ℓ} (r : Result A) → ((a : A) × (r ≡ ok a)) ⊎ ((c : Code) × (r ≡ err c))
Result-cases (ok a) = inl (a, refl)
Result-cases (err c) = inr (c, refl)

-- `IsDomainError(err, code)` for the outermost error of a chain.
unfoldable pub is_domain_error {ℓ} : {A : Type ℓ} → Result A → Code → Bool
unfolding code_dec
is_domain_error (ok a) c = false
is_domain_error (err e) c = ite (code_dec e c) true false
