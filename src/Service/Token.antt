-- ===== src/Service/Token.antt =====
-- `TokenService` (src/internal/core/service/token.go): the validation of tokens on a store, and the
-- check of nonces. The clock `now_ns` is in nanoseconds, and `now` is in milliseconds.
pub mod Replay
pub mod Validation
mod Tests
use tokmesh_go.Base.{
  ℕ, ◌+◌, ◌-◌, ◌/◌, Bool, true, false, not, Option, none, some, List, length, ltb, if◌then◌else◌,
}
use tokmesh_go.Domain.Str.{Str, is_empty}
use tokmesh_go.Domain.Error.{
  Result, ok, err, invalid_argument, timestamp_skew, nonce_replay, token_malformed, token_invalid,
  session_expired, session_not_found,
}
use tokmesh_go.Domain.Session.{Session, is_expired, clone, incr_version}
use tokmesh_go.Domain.Session
use tokmesh_go.Domain.Token.{validate_token_format, hash_token}
use tokmesh_go.Memory.Store.{Store}
use tokmesh_go.Memory.Store
use tokmesh_go.Memory.Change
use tokmesh_go.Service.Nonce.{NonceCache, add_if_absent}

-- `ValidateTokenRequest`
pub record ValidateRequest : Type 0 where
  pub token : Str
  pub touch : Bool
  pub client_ip : Str
  pub user_agent : Str

-- the last step of `Validate`: a touch that fails is passed over
unfoldable pub touched : ℕ → Store → ValidateRequest → Session → Store × Result Session
touched now s req x =
    let updated = incr_version (Session.touch now req.client_ip req.user_agent (clone x)) in
    let r = Change.update_session s updated in
    if req.touch then (elim r.1 [ err e ↦ (r.0, ok x) | ok _ ↦ (r.0, ok updated) ]) else (s, ok x)

-- `Validate`: the session stands for a response that is valid, an error for one that is not.
unfoldable pub validate_token :
    (Str → List ℕ) → ℕ → Store → ValidateRequest → Store × Result Session
validate_token sha256 now s req =
    if not (validate_token_format req.token)
    then (s, err token_malformed)
    else let r = Store.get_by_token now s (hash_token sha256 req.token) in
      elim r.1 [
        | err e ↦ (r.0, err token_invalid)
        | ok x ↦
            if is_expired now x
            then (r.0, err session_expired)
            else if x.is_deleted
            then (r.0, err session_not_found)
            else touched now r.0 req x
      ]

abbrev pub max_nonce_length : ℕ
max_nonce_length = 256

-- the difference of two times, without its sign
abbrev pub deviation : ℕ → ℕ → ℕ
deviation now timestamp = if ltb now timestamp then timestamp - now else now - timestamp

-- the answer of `CheckNonce` to that of `AddIfAbsent`
unfoldable pub answer : Option (NonceCache × Bool) → Option (NonceCache × Result (Unit {0}))
answer none = none
answer (some (c, true)) = some (c, ok tt)
answer (some (c, false)) = some (c, err nonce_replay)

-- `CheckNonce` with the time window `window`, in nanoseconds; `none` means that the fuel of the cache
-- ran out. A timestamp is not negative.
unfoldable pub check_nonce :
    ℕ → ℕ → ℕ → NonceCache → Str → ℕ → Option (NonceCache × Result (Unit {0}))
check_nonce fuel now_ns window c nonce timestamp =
    if is_empty nonce
    then some (c, err invalid_argument)
    else if ltb max_nonce_length (length nonce)
    then some (c, err invalid_argument)
    else if ltb (window / 1000000) (deviation (now_ns / 1000000) timestamp)
    then some (c, err timestamp_skew)
    else answer (add_if_absent fuel now_ns c nonce)
