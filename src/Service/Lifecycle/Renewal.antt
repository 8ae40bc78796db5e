-- ===== src/Service/Lifecycle/Renewal.antt =====
-- `Renew` and `Revoke` of `SessionService`, on any repository that keeps its laws.
use tokmesh_go.Base.{
  ℕ, ◌+◌, ◌/◌, ◌≡◌, ◌<◌, Option-cases, inl, inr, refl, ap, sym, ◌∙◌, false, none, some, ite, arith,
}
use tokmesh_go.Domain.Str.{Str, str_dec, is_empty}
use tokmesh_go.Domain.Error.{Result-cases, Code, ok, err, is_domain_error}
use tokmesh_go.Domain.Session.{
  Session, validate, validate_data, is_expired, set_expiration, incr_version,
}
use tokmesh_go.Service.Repository.{Repository}
use tokmesh_go.Service.Lifecycle.{millis, renewed, get_valid, save_renewed, renew, revoke}

-- A renewed session is as valid as it was.
validate-renewed : (now_ns ttl : ℕ) (x : Session) → validate (renewed now_ns ttl x) ≡ validate x
unfolding validate validate_data set_expiration incr_version
validate-renewed now_ns ttl x = refl

module _ (repo : Repository) (s : repo.State) (sound : repo.IsSound s) (id : Str) (x : Session)
    (here : repo.lookup s id ≡ some x) (given : is_empty id ≡ false) where
  get-there : (now : ℕ) → is_expired now x ≡ false → repo.get now s id ≡ ok x
  get-there now alive = repo.get_lookup now s id ∙ ground (arith, here, alive)

  get_valid-there :
      (now : ℕ) → is_expired now x ≡ false → x.is_deleted ≡ false → get_valid repo now s id ≡ ok x
  unfolding get_valid
  get_valid-there now alive kept = ground (arith, get-there now alive, alive, kept)

  renew-save :
      (now_ns ttl : ℕ)
      → 0 < ttl
      → is_expired (millis now_ns) x ≡ false
      → x.is_deleted ≡ false
      → renew repo now_ns s id ttl ≡ save_renewed repo s (renewed now_ns ttl x) x.version
  unfolding renew
  renew-save now_ns ttl positive alive kept =
      ground (arith, given, positive, get_valid-there (millis now_ns) alive kept)

  saved :
      (y : Session)
      → validate y ≡ ok tt
      → y.id ≡ x.id
      → y.token_hash ≡ x.token_hash
      → ((save_renewed repo s y x.version).1 ≡ ok y.expires_at)
        × ((j : Str)
            → repo.lookup (save_renewed repo s y x.version).0 j
              ≡ ite (str_dec id j) (some (incr_version y)) (repo.lookup s j))
  unfolding save_renewed
  saved y fits same_id same_token =
      let own : y.id ≡ id = same_id ∙ repo.own_id s id x sound here in
      let found : repo.lookup s y.id ≡ some x = ap (repo.lookup s) own ∙ here in
      let done = repo.update_fits s x y sound fits found (sym same_token) in
      (ground (arith, done.0), λ j. ground (arith, done.0, done.1 j, own))

  -- On a sound repository, `Renew` with a positive lifetime of a stored, valid session with an ID
  -- that is not empty, which has neither expired nor been marked as deleted, succeeds: it returns
  -- the new expiry, stores the session with it, with the time as its last activity and with its
  -- version raised twice, and changes no other session.
  pub renew_extends :
      (now_ns ttl : ℕ)
      → 0 < ttl
      → is_expired (millis now_ns) x ≡ false
      → x.is_deleted ≡ false
      → validate x ≡ ok tt
      → ((renew repo now_ns s id ttl).1 ≡ ok ((now_ns + ttl) / 1000000))
        × ((j : Str)
            → repo.lookup (renew repo now_ns s id ttl).0 j
              ≡ ite (str_dec id j) (some (incr_version (renewed now_ns ttl x))) (repo.lookup s j))
  unfolding set_expiration incr_version
  renew_extends now_ns ttl positive alive kept fits =
      rw (renew-save now_ns ttl positive alive kept)
        (saved (renewed now_ns ttl x) (validate-renewed now_ns ttl x ∙ fits) refl refl)

save_renewed_err :
    (repo : Repository) (s : repo.State) (y : Session) (old : ℕ) (e : Code) (j : Str)
    → (save_renewed repo s y old).1 ≡ err e
    → repo.lookup (save_renewed repo s y old).0 j ≡ repo.lookup s j
unfolding save_renewed
save_renewed_err repo s y old e j failed = elim (Result-cases (repo.update s y old).1) [
  | inl (z, f) ↦ absurd (ground (arith, f, failed))
  | inr (c, f) ↦ ground (arith, f, repo.update_err s y old c j f)
]

-- On any repository that keeps its laws, `Renew` that fails changes no session.
pub renew_err :
    (repo : Repository) (now_ns : ℕ) (s : repo.State) (id : Str) (ttl : ℕ) (e : Code) (j : Str)
    → (renew repo now_ns s id ttl).1 ≡ err e
    → repo.lookup (renew repo now_ns s id ttl).0 j ≡ repo.lookup s j
unfolding renew
renew_err repo now_ns s id ttl e j failed =
    elim (Result-cases (get_valid repo (millis now_ns) s id)) [
      | inl (x, f) ↦
          ground (arith, f, failed, save_renewed_err repo s (renewed now_ns ttl x) x.version e j)
      | inr (c, f) ↦ ground (arith, f)
    ]

-- On a sound repository, `Revoke` of an ID that is not empty succeeds, whether or not there is a
-- session, leaves none under it, and changes no other.
pub revoke_idempotent :
    (repo : Repository) (s : repo.State) (id : Str) (j : Str)
    → repo.IsSound s
    → is_empty id ≡ false
    → ((revoke repo s id).1 ≡ ok tt)
      × (repo.lookup (revoke repo s id).0 j ≡ ite (str_dec id j) none (repo.lookup s j))
unfolding revoke is_domain_error
revoke_idempotent repo s id j sound given = elim (Option-cases (repo.lookup s id)) [
  | inl e ↦ ground (arith, given, repo.delete_result s id, e, repo.delete_lookup s id j sound)
  | inr (x, e) ↦ ground (arith, given, repo.delete_result s id, e, repo.delete_lookup s id j sound)
]
