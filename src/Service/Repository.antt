-- ===== src/Service/Repository.antt =====
-- `SessionRepository` (src/internal/core/service/session.go): what the session service uses of a
-- storage, and what it relies on. `lookup` is the session stored under an ID, expired or not.
pub mod InMemory
use tokmesh_go.Base.{ℕ, ◌≡◌, ◌≢◌, Option, none, some, List, ite, if◌then◌else◌}
use tokmesh_go.Domain.Str.{Str, str_dec}
use tokmesh_go.Domain.Error.{
  Code, Result, ok, err, session_not_found, session_expired, session_version_conflict,
}
use tokmesh_go.Domain.Session.{Session, validate, is_expired, incr_version}

-- What a read of a stored session gives.
abbrev pub read : ℕ → Option Session → Result Session
read now none = err session_not_found
read now (some x) = if is_expired now x then err session_expired else ok x

-- What a deletion reports of a stored session.
abbrev pub deletion : Option Session → Result (Unit {0})
deletion none = err session_not_found
deletion (some x) = ok tt

pub record Repository : Type 1 where
  pub State : Type 0
  pub get : ℕ → State → Str → Result Session
  pub update : State → Session → ℕ → State × Result Session
  pub delete : State → Str → State × Result (Unit {0})
  pub list_by_user_id : ℕ → State → Str → List Session
  pub delete_by_user_id : State → Str → State × ℕ
  pub delete_expired : ℕ → State → State × ℕ
  pub lookup : State → Str → Option Session
  pub IsSound : State → Type 0
  pub get_lookup : (now : ℕ) (s : State) (id : Str) → get now s id ≡ read now (lookup s id)
  pub own_id : (s : State) (id : Str) (x : Session) → IsSound s → lookup s id ≡ some x → x.id ≡ id
  pub update_fits :
      (s : State) (x y : Session)
      → IsSound s
      → validate y ≡ ok tt
      → lookup s y.id ≡ some x
      → x.token_hash ≡ y.token_hash
      → ((update s y x.version).1 ≡ ok (incr_version y))
        × ((j : Str)
            → lookup (update s y x.version).0 j
              ≡ ite (str_dec y.id j) (some (incr_version y)) (lookup s j))
  pub update_stale :
      (s : State) (x y : Session) (expected : ℕ)
      → validate y ≡ ok tt
      → lookup s y.id ≡ some x
      → x.version ≢ expected
      → update s y expected ≡ (s, err session_version_conflict)
  pub update_err :
      (s : State) (y : Session) (expected : ℕ) (e : Code) (j : Str)
      → (update s y expected).1 ≡ err e
      → lookup (update s y expected).0 j ≡ lookup s j
  pub delete_result : (s : State) (id : Str) → (delete s id).1 ≡ deletion (lookup s id)
  pub delete_lookup :
      (s : State) (id j : Str)
      → IsSound s
      → lookup (delete s id).0 j ≡ ite (str_dec id j) none (lookup s j)
