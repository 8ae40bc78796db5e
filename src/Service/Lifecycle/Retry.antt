-- ===== src/Service/Lifecycle/Retry.antt =====
-- `Touch` of `SessionService` beside other requests: its retry after a conflict.
use tokmesh_go.Base.{ℕ, ◌≡◌, ◌≢◌, refl, ap, ◌∙◌, false, some, ite, arith}
use tokmesh_go.Domain.Str.{Str, str_dec, is_empty}
use tokmesh_go.Domain.Error.{ok, is_domain_error}
use tokmesh_go.Domain.Session.{Session, validate, is_expired, incr_version}
use tokmesh_go.Service.Repository.{Repository}
use tokmesh_go.Service.Lifecycle.{reapplied, touch, touch_again}

module _ (repo : Repository) (s : repo.State) (others : repo.State → repo.State) (id : Str)
    (x y : Session) (read_before : repo.lookup s id ≡ some x)
    (written : repo.lookup (others s) id ≡ some y) (sound : repo.IsSound (others s))
    (given : is_empty id ≡ false) (now later : ℕ) (ip : Str) (alive : is_expired now x ≡ false)
    (still_alive : is_expired later y ≡ false) (fits : validate (reapplied now ip x) ≡ ok tt)
    (fits_after : validate (reapplied now ip y) ≡ ok tt) where
  own : y.id ≡ id
  own = repo.own_id (others s) id y sound written

  again :
      ((touch_again repo now later (others s) id ip).1 ≡ ok now)
      × ((j : Str)
          → repo.lookup (touch_again repo now later (others s) id ip).0 j
            ≡ ite
                (str_dec id j)
                (some (incr_version (reapplied now ip y)))
                (repo.lookup (others s) j))
  unfolding touch_again incr_version
  again =
      let seen : repo.get later (others s) id ≡ ok y =
        repo.get_lookup later (others s) id ∙ ground (arith, written, still_alive) in
      let done =
        repo.update_fits (others s) y (reapplied now ip y) sound fits_after
          (ap (repo.lookup (others s)) own ∙ written) refl in
      (ground (arith, seen, done.0), λ j. ground (arith, seen, done.0, done.1 j, own))

  -- the first attempt meets the conflict, and the second one is made
  touch-again :
      x.id ≡ id
      → y.version ≢ x.version
      → touch repo others now later s id ip ≡ touch_again repo now later (others s) id ip
  unfolding touch is_domain_error incr_version
  touch-again same_id raised =
      let seen : repo.get now s id ≡ ok x =
        repo.get_lookup now s id ∙ ground (arith, read_before, alive) in
      let stale =
        repo.update_stale (others s) y (reapplied now ip x) x.version fits
          (ap (repo.lookup (others s)) same_id ∙ written) raised in
      ground (arith, given, seen, alive, stale)

  -- If another request writes the session between the first read and the first write of `Touch`
  -- and raises its version, then `Touch` tries again on what was written, succeeds, and changes no
  -- other session. This is for any repository that keeps its laws and is sound before and after
  -- that write, an ID that is not empty, a session that has not expired at either read, and
  -- touched sessions that are valid.
  pub touch_keeps_write :
      repo.IsSound s
      → y.version ≢ x.version
      → ((touch repo others now later s id ip).1 ≡ ok now)
        × ((j : Str)
            → repo.lookup (touch repo others now later s id ip).0 j
              ≡ ite
                  (str_dec id j)
                  (some (incr_version (reapplied now ip y)))
                  (repo.lookup (others s) j))
  touch_keeps_write sound_before raised =
      rw (touch-again (repo.own_id s id x sound_before read_before) raised) again
