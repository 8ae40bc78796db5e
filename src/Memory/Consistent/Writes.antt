-- ===== src/Memory/Consistent/Writes.antt =====
-- What a read returns after a write.
use tokmesh_go.Base.{ℕ, ◌+◌, ◌≡◌, ◌%◌, ◌^◌, some, ite, arith, Option-cases, inl, inr}
use tokmesh_go.Domain.Str.{Str, str_dec}
use tokmesh_go.Domain.Error.{ok, err, session_not_found}
use tokmesh_go.Domain.Session.{Session, clone, incr_version}
use tokmesh_go.Cmap
use tokmesh_go.Cmap.Laws as CmapLaws
use tokmesh_go.Memory.Store.{Store, live, get, create}
use tokmesh_go.Memory.Store.Invariant.{IsConsistent}
use tokmesh_go.Memory.Change.{update, replace, delete, unindexed}

-- On a consistent store, after a `Create` that succeeded, `Get` of the new ID returns the session,
-- or reports it as expired, and `Get` of any other ID returns what it did.
pub get-create :
    (now : ℕ) (s : Store) (x : Session) (id : Str)
    → IsConsistent s
    → (create s x).1 ≡ ok tt
    → get now (create s x).0 id ≡ ite (str_dec x.id id) (live now s x) (get now s id)
unfolding get create live clone
get-create now s x id c h =
    ground (arith, CmapLaws.get-set str_dec s.sessions c.sessions_valid x.id x id)

-- On a consistent store, after a `Delete`, whatever it reports, `Get` of the ID finds no session,
-- and `Get` of any other ID returns what it did.
pub get-delete :
    (now : ℕ) (s : Store) (id j : Str)
    → IsConsistent s
    → get now (delete s id).0 j ≡ ite (str_dec id j) (err session_not_found) (get now s j)
unfolding get delete unindexed live
get-delete now s id j c = ground (arith, CmapLaws.get-pop str_dec s.sessions c.sessions_valid id j)

-- On a consistent store, an `Update` that succeeds found the expected version, stores the session
-- with the next version modulo 2^64, gives that version to the caller, and changes no other
-- session.
pub update_locks :
    (s : Store) (y z : Session) (expected : ℕ)
    → IsConsistent s
    → (update s y expected).1 ≡ ok z
    → (x : Session) × (Cmap.get str_dec s.sessions y.id ≡ some x)
      × (x.version ≡ expected)
      × (z ≡ record y { version = (y.version + 1) % 2 ^ 64 })
      × ((j : Str)
          → Cmap.get str_dec (update s y expected).0.sessions j
            ≡ ite (str_dec y.id j) (some z) (Cmap.get str_dec s.sessions j))
unfolding update replace clone incr_version
update_locks s y z expected c h = elim (Option-cases (Cmap.get str_dec s.sessions y.id)) [
  | inl e ↦ absurd (ground arith)
  | inr (x, e) ↦ (
    x,
    e,
    ground arith,
    ground arith,
    λ j.
        ground
          (arith, CmapLaws.get-set str_dec s.sessions c.sessions_valid y.id (incr_version y) j),
  )
]
