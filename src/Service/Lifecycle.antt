-- ===== src/Service/Lifecycle.antt =====
-- The requests of `SessionService` on sessions that exist
-- (src/internal/core/service/session.go and session_lifecycle.go), on any repository. A request reads
-- the clock `now_ns` in nanoseconds, and sees it in milliseconds.
pub mod Renewal
pub mod Retry
pub mod Sound
mod Tests
use tokmesh_go.Base.{
  ℕ, ◌/◌, ◌==◌, Bool, true, false, not, ◌&&◌, ite, Option, none, some, List, length, ltb,
  if◌then◌else◌,
}
use tokmesh_go.Domain.Str.{Str, str_dec, is_empty}
use tokmesh_go.Domain.Error.{
  Code, Result, ok, err, is_domain_error, missing_argument, invalid_argument, session_not_found,
  session_expired, session_version_conflict, session_quota_exceeded, storage_error,
}
use tokmesh_go.Domain.Session.{Session, Data, validate, is_expired, set_expiration, incr_version}
use tokmesh_go.Service.Repository.{Repository}

-- `UnixMilli` of a time
abbrev pub millis : ℕ → ℕ
millis ns = ns / 1000000

-- the session that `Renew` writes
abbrev pub renewed : ℕ → ℕ → Session → Session
renewed now_ns ttl x =
    incr_version (record (set_expiration now_ns ttl x) { last_active = millis now_ns })

-- the session that `Touch` writes
abbrev pub reapplied : ℕ → Str → Session → Session
reapplied now ip x =
    incr_version (record x {
      last_active = now;
      last_access_ip = if is_empty ip then x.last_access_ip else ip;
    })

-- `a == b` on strings
abbrev same_str : Str → Str → Bool
same_str a b = ite (str_dec a b) true false

module _ (repo : Repository) where
  -- The session of an ID, as `Get` of the service returns it and as `Renew` reads it.
  unfoldable pub get_valid : ℕ → repo.State → Str → Result Session
  get_valid now s id = elim (repo.get now s id) [
    | err e ↦ err session_not_found
    | ok x ↦
        if is_expired now x
        then err session_expired
        else if x.is_deleted
        then err session_not_found
        else ok x
  ]

  unfoldable pub get : ℕ → repo.State → Str → Result Session
  get now s id = if is_empty id then err missing_argument else get_valid now s id

  -- the last step of `Renew`
  unfoldable pub save_renewed : repo.State → Session → ℕ → repo.State × Result ℕ
  save_renewed s y old_version =
      let r = repo.update s y old_version in
      elim r.1 [ err e ↦ (r.0, err session_version_conflict) | ok z ↦ (r.0, ok y.expires_at) ]

  unfoldable pub renew : ℕ → repo.State → Str → ℕ → repo.State × Result ℕ
  renew now_ns s id ttl =
      if is_empty id
      then (s, err missing_argument)
      else if ttl == 0
      then (s, err invalid_argument)
      else elim (get_valid (millis now_ns) s id) [
        | err e ↦ (s, err e)
        | ok x ↦ save_renewed s (renewed now_ns ttl x) x.version
      ]

  -- the second attempt of `Touch`, after a conflict
  unfoldable pub touch_again : ℕ → ℕ → repo.State → Str → Str → repo.State × Result ℕ
  touch_again now later s id ip = elim (repo.get later s id) [
    | err e ↦ (s, err e)
    | ok x ↦
        let r = repo.update s (reapplied now ip x) x.version in
        elim r.1 [ err e ↦ (r.0, err storage_error) | ok z ↦ (r.0, ok now) ]
  ]

  -- `Touch`, which reads the clock again for its second attempt; `others` is what other requests do
  -- between its first read and its first write.
  unfoldable pub touch :
      (repo.State → repo.State) → ℕ → ℕ → repo.State → Str → Str → repo.State × Result ℕ
  touch others now later s id ip =
      if is_empty id then (s, err missing_argument) else elim (repo.get now s id) [
        | err e ↦ (s, err e)
        | ok x ↦
            if is_expired now x
            then (s, err session_expired)
            else let r = repo.update (others s) (reapplied now ip x) x.version in
              let again = touch_again now later r.0 id ip in
              elim r.1 [
                | ok z ↦ (r.0, ok now)
                | err e ↦
                    if is_domain_error r.1 session_version_conflict
                    then again
                    else (r.0, err storage_error)
              ]
      ]

  unfoldable pub revoke : repo.State → Str → repo.State × Result (Unit {0})
  revoke s id =
      if is_empty id
      then (s, err missing_argument)
      else let r = repo.delete s id in
        elim r.1 [
          | ok _ ↦ (r.0, ok tt)
          | err e ↦
              if is_domain_error r.1 session_not_found
              then (r.0, ok tt)
              else (r.0, err storage_error)
        ]

  -- At most 1000 sessions at a time.
  unfoldable pub revoke_by_user : ℕ → repo.State → Str → repo.State × Result ℕ
  revoke_by_user now s user_id =
      if is_empty user_id
      then (s, err missing_argument)
      else if ltb 1000 (length (repo.list_by_user_id now s user_id))
      then (s, err session_quota_exceeded)
      else let r = repo.delete_by_user_id s user_id in (r.0, ok r.1)

  -- `GC`
  unfoldable pub gc : ℕ → repo.State → repo.State × ℕ
  gc now s = repo.delete_expired now s

-- `UpdateSessionRequest`; no data is `nil`.
pub record UpdateRequest : Type 0 where
  pub session_id : Str
  pub user_id : Str
  pub device_id : Str
  pub data_map : Data
  pub ttl : ℕ

-- the fields that `Update` of the service sets
unfoldable pub amended : ℕ → UpdateRequest → Session → Session
amended now_ns req x =
    let y = record x {
      device_id = if is_empty req.device_id then x.device_id else req.device_id;
      data_map = elim req.data_map [ none ↦ x.data_map | some m ↦ some m ];
    } in
    let z = if req.ttl == 0 then y else set_expiration now_ns req.ttl y in
    incr_version (record z { last_active = millis now_ns })

-- `Update` after it found the session.
unfoldable pub amend :
    (repo : Repository) → ℕ → repo.State → UpdateRequest → Session → repo.State × Result Session
amend repo now_ns s req x =
    if not (is_empty req.user_id) && not (same_str req.user_id x.user_id)
    then (s, err invalid_argument)
    else elim (validate (amended now_ns req x)) [
      | err e ↦ (s, err e)
      | ok _ ↦
          let r = repo.update s (amended now_ns req x) x.version in
          elim r.1 [ err e ↦ (r.0, err session_version_conflict) | ok z ↦ (r.0, ok z) ]
    ]

unfoldable pub update :
    (repo : Repository) → ℕ → repo.State → UpdateRequest → repo.State × Result Session
update repo now_ns s req =
    if is_empty req.session_id
    then (s, err missing_argument)
    else elim (get_valid repo (millis now_ns) s req.session_id) [
      | err e ↦ (s, err e)
      | ok x ↦ amend repo now_ns s req x
    ]
