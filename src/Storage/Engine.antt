-- ===== src/Storage/Engine.antt =====
-- `Engine` (src/internal/storage/engine.go). The log is the list of entries that were appended; an
-- append that the writer refuses is an argument of the method. What `lastWALOffset` and the logger
-- hold does not change what the methods return.
pub mod Recorded
pub mod Samples
pub mod Recovery
pub mod Crash
pub mod Divergence
mod Tests
use tokmesh_go.Base.{
  ℕ, ◌+◌, ◌-◌, ◌%◌, ◌^◌, Bool, true, false, ◌||◌, Option, none, some, List, [], ◌∷◌, ◌++◌, ltb,
  if◌then◌else◌,
}
use tokmesh_go.Domain.Str.{Str}
use tokmesh_go.Domain.Error.{
  Result, ok, err, is_domain_error, session_conflict, session_not_found, session_version_conflict,
}
use tokmesh_go.Domain.Session.{Session}
use tokmesh_go.Memory.Store
use tokmesh_go.Memory.Store.{Store}
use tokmesh_go.Memory.Change
use tokmesh_go.Storage.Entry.{Entry, OpType, new_create_entry, new_update_entry, new_delete_entry}

pub record Engine : Type 0 where
  pub store : Store
  pub wal : List Entry

-- The writer's answer to an append, or the store's.
pub data Outcome {ℓ} (A : Type ℓ) : Type ℓ where
  write_failed : Outcome A
  done : Result A → Outcome A

-- An engine after an append that the writer accepted.
abbrev pub appended : Engine → Entry → Engine
appended e entry = record e { wal = e.wal ++ entry ∷ [] }

module _ (accepted : Bool) (now : ℕ) (e : Engine) where
  unfoldable pub create : Session → Engine × Outcome (Unit {0})
  create x = elim accepted [
    | false ↦ (e, write_failed)
    | true ↦
        let r = Store.create e.store x in
        (record (appended e (new_create_entry now x)) { store = r.0 }, done r.1)
  ]

  unfoldable pub update : Session → ℕ → Engine × Outcome Session
  update y expected_version = elim accepted [
    | false ↦ (e, write_failed)
    | true ↦
        let r = Change.update e.store y expected_version in
        (record (appended e (new_update_entry now y)) { store = r.0 }, done r.1)
  ]

  unfoldable pub update_session : Session → Engine × Outcome (Unit {0})
  update_session y = elim accepted [
    | false ↦ (e, write_failed)
    | true ↦
        let r = Change.update_session e.store y in
        (record (appended e (new_update_entry now y)) { store = r.0 }, done r.1)
  ]

  unfoldable pub delete : Str → Engine × Outcome (Unit {0})
  delete id = elim accepted [
    | false ↦ (e, write_failed)
    | true ↦
        let r = Change.delete e.store id in
        (record (appended e (new_delete_entry now id)) { store = r.0 }, done r.1)
  ]

-- the loop of `DeleteByUserID`: an append that fails is logged, and the loop goes on
unfoldable pub log_deletes : (Str → Bool) → ℕ → List Entry → List Session → List Entry
log_deletes accepted now wal [] = wal
log_deletes accepted now wal (x ∷ sessions) =
    log_deletes accepted now (if accepted x.id then wal ++ new_delete_entry now x.id ∷ [] else wal)
      sessions

unfoldable pub delete_by_user_id : (Str → Bool) → ℕ → Engine → Str → Engine × ℕ
delete_by_user_id accepted now e user_id =
    let sessions = Store.list_by_user_id now e.store user_id in
    let r = Change.delete_by_user_id e.store user_id in
    (record { store = r.0; wal = log_deletes accepted now e.wal sessions }, r.1)

-- An error that the replay passes over.
abbrev passes {ℓ} : {A : Type ℓ} → Result A → Bool → Bool
passes (ok a) expected = true
passes (err c) expected = expected

-- the `case` of `applyEntry` for each type of operation, with the session of the entry
apply_create : Store → Option Session → Store × Bool
apply_create s none = (s, false)
apply_create s (some x) =
    let r = Store.create s x in (r.0, passes r.1 (is_domain_error r.1 session_conflict))

-- The expected version is a `uint64`.
apply_update : Store → Option Session → Store × Bool
apply_update s none = (s, false)
apply_update s (some y) =
    let r = Change.update s y ((y.version + (2 ^ 64 - 1)) % 2 ^ 64) in
    (
      r.0,
      passes r.1
          (is_domain_error r.1 session_not_found || is_domain_error r.1 session_version_conflict),
    )

apply_delete : Store → Str → Store × Bool
apply_delete s id =
    let r = Change.delete s id in (r.0, passes r.1 (is_domain_error r.1 session_not_found))

-- `applyEntry`: the store, and whether it returned no error.
unfoldable pub apply_entry : Store → Entry → Store × Bool
unfolding apply_create apply_update apply_delete
apply_entry s entry = elim entry.op_type [
  | OpType.create ↦ apply_create s entry.session
  | OpType.update ↦ apply_update s entry.session
  | OpType.delete ↦ apply_delete s entry.session_id
  | OpType.unspecified ↦ (s, false)
]

-- Whether the replay skips an entry: the creation of a session that is taken for expired.
unfoldable pub skips : ℕ → Entry → Bool
skips now entry = elim entry.op_type [
  | OpType.create ↦ elim entry.session [ none ↦ false | some x ↦ ltb x.expires_at now ]
  | _ ↦ false
]

-- `replayWAL` over what the reader yields until the end of the log, `none` being an error of the
-- reader; the second part is `applied`.
unfoldable pub replay_wal : ℕ → Store → List (Option Entry) → ℕ → Store × ℕ
replay_wal now s [] applied = (s, applied)
replay_wal now s (none ∷ reads) applied = replay_wal now s reads applied
replay_wal now s (some entry ∷ reads) applied =
    replay_wal now (if skips now entry then s else (apply_entry s entry).0) reads (
      if skips now entry then applied else if (apply_entry s entry).1 then applied + 1 else applied)

-- the loop of `Recover` over the sessions of a snapshot; an error is logged
unfoldable pub restore : Store → List Session → Store
restore s [] = s
restore s (x ∷ sessions) = restore (Store.create s x).0 sessions

-- `Recover`: the sessions of the snapshot, if there is one, and then the log from its offset.
unfoldable pub recover : ℕ → Store → List Session → List (Option Entry) → Store
unfolding restore replay_wal
recover now s sessions reads = (replay_wal now (restore s sessions) reads 0).0
