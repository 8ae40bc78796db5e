-- ===== src/Storage/Engine/Recorded.antt =====
-- What the log can give back of a store: its sessions without the fields that JSON leaves out. The
-- methods of the store do not look at those.
use tokmesh_go.Base.{ℕ, ◌≡◌, refl, ap, arith, Option-cases, inl, inr}
use tokmesh_go.Domain.Str.{Str, str_dec}
use tokmesh_go.Domain.Error.{Result-cases}
use tokmesh_go.Domain.Session.{Session, validate, clone, incr_version}
use tokmesh_go.Cmap
use tokmesh_go.Cmap.{Map}
use tokmesh_go.Cmap.Values.{
  map_values, get-map_values, set-map_values, has-map_values, pop-map_values,
}
use tokmesh_go.Memory.Store
use tokmesh_go.Memory.Store.{Store, check_create, stored}
use tokmesh_go.Memory.Change
use tokmesh_go.Storage.Codec.{serialized}

-- A store with its sessions as the log carries them.
unfoldable pub recorded : Store → Store
recorded s = record s { sessions = map_values serialized s.sessions }

pub validate-serialized : (x : Session) → validate (serialized x) ≡ validate x
unfolding validate serialized
validate-serialized x = refl

check_create-recorded :
    (s : Store) (x : Session) → check_create (recorded s) (serialized x) ≡ check_create s x
unfolding check_create recorded serialized validate
check_create-recorded s x = rw (has-map_values serialized str_dec s.sessions x.id) refl

stored-recorded :
    (s : Store) (x : Session) → stored (recorded s) (serialized x) ≡ recorded (stored s x)
unfolding stored recorded serialized clone
stored-recorded s x =
    ap (λ (m : Map Str Session). record (stored s x) { sessions = m })
      (set-map_values serialized str_dec s.sessions x.id x)

pub create-recorded :
    (s : Store) (x : Session)
    → ((Store.create (recorded s) (serialized x)).0 ≡ recorded (Store.create s x).0)
unfolding Store.create
create-recorded s x = elim (Result-cases (check_create s x)) [
  | inl (a, e) ↦ ground (arith, e, check_create-recorded s x, stored-recorded s x)
  | inr (c, e) ↦ ground (arith, e, check_create-recorded s x)
]

pub delete-recorded :
    (s : Store) (id : Str) → (Change.delete (recorded s) id).0 ≡ recorded (Change.delete s id).0
unfolding Change.delete Change.unindexed recorded serialized
delete-recorded s id =
    let (first, second) = pop-map_values serialized str_dec s.sessions id in
    elim (Option-cases (Cmap.pop str_dec s.sessions id).1) [
      | inl e ↦ ground (arith, e, first, second)
      | inr (x, e) ↦ ground (arith, e, first, second)
    ]

replace-recorded :
    (s : Store) (x y : Session)
    → (Change.replace (recorded s) (serialized x) (serialized y)).0
      ≡ recorded (Change.replace s x y).0
unfolding Change.replace Change.retoken recorded serialized clone incr_version
replace-recorded s x y =
    elim (Result-cases (Change.retoken s.tokens x.token_hash y.token_hash y.id).1) [
      | inl (a, e) ↦
          ground
            (arith, e, set-map_values serialized str_dec s.sessions y.id (incr_version (clone y)))
      | inr (c, e) ↦ ground (arith, e)
    ]

pub update-recorded :
    (s : Store) (y : Session) (v : ℕ)
    → (Change.update (recorded s) (serialized y) v).0 ≡ recorded (Change.update s y v).0
unfolding Change.update recorded serialized validate
update-recorded s y v = elim (Option-cases (Cmap.get str_dec s.sessions y.id)) [
  | inl e ↦ ground (arith, e, get-map_values serialized str_dec s.sessions y.id)
  | inr (x, e) ↦
      ground (arith, e, get-map_values serialized str_dec s.sessions y.id, replace-recorded s x y)
]
