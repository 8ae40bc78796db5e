-- ===== src/Service/Repository/InMemory.antt =====
-- The in-memory store is a repository (src/internal/storage/memory/store.go).
use tokmesh_go.Base.{ℕ, ◌≡◌, ◌≢◌, Option, none, some, ite, arith}
use tokmesh_go.Domain.Str.{Str, str_dec}
use tokmesh_go.Domain.Error.{Code, ok, err, session_version_conflict}
use tokmesh_go.Domain.Session.{Session, validate, clone, incr_version}
use tokmesh_go.Cmap
use tokmesh_go.Cmap.Laws as CmapLaws
use tokmesh_go.Memory.Store
use tokmesh_go.Memory.Store.{Store}
use tokmesh_go.Memory.Store.Invariant.{IsConsistent, named}
use tokmesh_go.Memory.Change
use tokmesh_go.Service.Repository.{Repository, read, deletion}

abbrev pub lookup : Store → Str → Option Session
lookup s id = Cmap.get str_dec s.sessions id

pub get_lookup : (now : ℕ) (s : Store) (id : Str) → Store.get now s id ≡ read now (lookup s id)
unfolding Store.get Store.live clone
get_lookup now s id = ground arith

pub own_id :
    (s : Store) (id : Str) (x : Session) → IsConsistent s → lookup s id ≡ some x → x.id ≡ id
unfolding named
own_id s id x c here = ground (arith, c.ids id, here)

pub update_fits :
    (s : Store) (x y : Session)
    → IsConsistent s
    → validate y ≡ ok tt
    → lookup s y.id ≡ some x
    → x.token_hash ≡ y.token_hash
    → ((Change.update s y x.version).1 ≡ ok (incr_version y))
      × ((j : Str)
          → lookup (Change.update s y x.version).0 j
            ≡ ite (str_dec y.id j) (some (incr_version y)) (lookup s j))
unfolding Change.update Change.replace Change.retoken clone incr_version
update_fits s x y c fits here same = (
  ground (arith, fits, here, same),
  λ j. ground (
    arith,
    fits,
    here,
    same,
    CmapLaws.get-set str_dec s.sessions c.sessions_valid y.id (incr_version y) j,
  ),
)

pub update_stale :
    (s : Store) (x y : Session) (expected : ℕ)
    → validate y ≡ ok tt
    → lookup s y.id ≡ some x
    → x.version ≢ expected
    → Change.update s y expected ≡ (s, err session_version_conflict)
unfolding Change.update
update_stale s x y expected fits here stale = ground (arith, fits, here, stale)

pub update_err :
    (s : Store) (y : Session) (expected : ℕ) (e : Code) (j : Str)
    → (Change.update s y expected).1 ≡ err e
    → lookup (Change.update s y expected).0 j ≡ lookup s j
unfolding Change.update Change.replace
update_err s y expected e j failed = ground (arith, failed)

pub delete_result : (s : Store) (id : Str) → (Change.delete s id).1 ≡ deletion (lookup s id)
unfolding Change.delete Cmap.pop Cmap.get
delete_result s id = ground arith

pub delete_lookup :
    (s : Store) (id j : Str)
    → IsConsistent s
    → lookup (Change.delete s id).0 j ≡ ite (str_dec id j) none (lookup s j)
unfolding Change.delete Change.unindexed
delete_lookup s id j c = ground (arith, CmapLaws.get-pop str_dec s.sessions c.sessions_valid id j)

-- The repository that the server uses.
abbrev pub in_memory : Repository
in_memory = record {
  State = Store;
  get = Store.get;
  update = Change.update;
  delete = Change.delete;
  list_by_user_id = Store.list_by_user_id;
  delete_by_user_id = Change.delete_by_user_id;
  delete_expired = Change.cleanup_expired;
  lookup = lookup;
  IsSound = IsConsistent;
  get_lookup = get_lookup;
  own_id = own_id;
  update_fits = update_fits;
  update_stale = update_stale;
  update_err = update_err;
  delete_result = delete_result;
  delete_lookup = delete_lookup;
}
