-- ===== src/Service/Lifecycle/Tests.antt =====
-- Runs of the session service on the in-memory store, and instances of its theorems.
use tokmesh_go.Base.{◌≡◌, ◌/◌, ◌+◌, refl, false, some, [], ◌∷◌, ite, arith}
use tokmesh_go.Domain.Str.{Str, str_dec, bytes}
use tokmesh_go.Domain.Error.{ok, err, invalid_argument}
use tokmesh_go.Domain.Session.{Session, is_expired, validate, set_expiration, incr_version}
use tokmesh_go.Memory.Store.{Store}
use tokmesh_go.Memory.Store.Invariant.{IsConsistent}
use tokmesh_go.Memory.Change
use tokmesh_go.Memory.Consistent.Update
use tokmesh_go.Memory.Samples.{alice, program, s2, s2-IsConsistent}
use tokmesh_go.Service.Repository.InMemory.{in_memory, lookup}
use tokmesh_go.Service.Lifecycle
use tokmesh_go.Service.Lifecycle.{
  UpdateRequest, update, millis, renewed, reapplied, renew, touch, revoke,
}
use tokmesh_go.Service.Lifecycle.Renewal.{renew_extends}
use tokmesh_go.Service.Lifecycle.Retry.{touch_keeps_write}

alice_there : lookup s2 alice.id ≡ some alice
unfolding program
alice_there = refl

alice_valid : validate alice ≡ ok tt
unfolding program
alice_valid = refl

alice_alive : is_expired (millis 2000000000) alice ≡ false
unfolding program
alice_alive = refl

renew_extends_example :
    ((renew in_memory 2000000000 s2 alice.id 3000000).1 ≡ ok ((2000000000 + 3000000) / 1000000))
    × ((j : Str)
        → lookup (renew in_memory 2000000000 s2 alice.id 3000000).0 j
          ≡ ite
              (str_dec alice.id j)
              (some (incr_version (renewed 2000000000 3000000 alice)))
              (lookup s2 j))
renew_extends_example =
    renew_extends in_memory s2 s2-IsConsistent alice.id alice alice_there refl 2000000000 3000000
      (omega arith) alice_alive refl alice_valid

no_lifetime : (renew in_memory 2000000000 s2 alice.id 0).1 ≡ err invalid_argument
unfolding program Lifecycle.renew
no_lifetime = refl

-- the write of another request, which gives the session other data
abbrev other_write : Session
other_write = record alice { data_map = some ((bytes "k", bytes "w") ∷ []); version = 2 }

abbrev others : Store → Store
others s = (Change.update s other_write 1).0

abbrev after_other : Session
after_other = record other_write { version = 3 }

written : lookup (others s2) alice.id ≡ some after_other
unfolding program
written = refl

no_conflict : (Change.update s2 other_write 1).1 ≡ ok after_other
unfolding program
no_conflict = refl

others-IsConsistent : IsConsistent (others s2)
others-IsConsistent =
    Update.update-IsConsistent s2 other_write 1 s2-IsConsistent
      (λ x e. ground (arith, alice_there, e)) (λ e. ground (arith, no_conflict, e))

fits : validate (reapplied 2000 [] alice) ≡ ok tt
unfolding program
fits = refl

fits_after : validate (reapplied 2000 [] after_other) ≡ ok tt
unfolding program
fits_after = refl

after_alive : is_expired 2001 after_other ≡ false
unfolding program
after_alive = refl

alice_alive_now : is_expired 2000 alice ≡ false
unfolding program
alice_alive_now = refl

touch_keeps_write_example :
    ((touch in_memory others 2000 2001 s2 alice.id []).1 ≡ ok 2000)
    × ((j : Str)
        → lookup (touch in_memory others 2000 2001 s2 alice.id []).0 j
          ≡ ite
              (str_dec alice.id j)
              (some (incr_version (reapplied 2000 [] after_other)))
              (lookup (others s2) j))
touch_keeps_write_example =
    touch_keeps_write in_memory s2 others alice.id alice after_other alice_there written
      others-IsConsistent refl 2000 2001 [] alice_alive_now after_alive fits fits_after
      s2-IsConsistent (λ e. omega (arith, e))

-- a request for other data and a longer life
abbrev request : UpdateRequest
request = record {
  session_id = alice.id;
  user_id = [];
  device_id = [];
  data_map = some ((bytes "k", bytes "w") ∷ []);
  ttl = 9000000000;
}

abbrev amended_alice : Session
amended_alice = record alice {
  data_map = some ((bytes "k", bytes "w") ∷ []);
  expires_at = 11000;
  ttl = 9000;
  last_active = 2000;
  version = 3;
}

update_runs : (update in_memory 2000000000 s2 request).1 ≡ ok amended_alice
unfolding program Lifecycle.update Lifecycle.amend Lifecycle.amended Lifecycle.get_valid
    set_expiration
update_runs = refl
