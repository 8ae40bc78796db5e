-- ===== src/Storage/Engine/Recovery.antt =====
-- Replaying the log rebuilds the store, for the requests that the session service makes.
use tokmesh_go.Base.{
  ℕ, ◌+◌, ◌%◌, ◌^◌, ◌-◌, ◌≤◌, ◌≡◌, refl, ap, sym, ◌∙◌, Bool, true, false, Option, none, some, List,
  [], ◌∷◌, ◌++◌, map, arith, if◌then◌else◌,
}
use mathlib.Core.List.{map-append}
use tokmesh_go.Domain.Str.{Str}
use tokmesh_go.Domain.Session.{Session}
use tokmesh_go.Memory.Store.{Store}
use tokmesh_go.Storage.Entry.{Entry, new_create_entry, new_update_entry, new_delete_entry}
use tokmesh_go.Storage.Codec.{serialized}
use tokmesh_go.Storage.Codec.RoundTrip.{wire}
use tokmesh_go.Storage.Engine.Recorded.{recorded, create-recorded, update-recorded, delete-recorded}
use tokmesh_go.Storage.Engine.{
  Engine, create, update, delete, apply_entry, skips, replay_wal, recover,
}

-- What the reader returns for an entry that was logged.
abbrev pub as_read : Entry → Option Entry
as_read e = some (wire e)

-- The store that a replay of the whole log gives.
unfoldable pub replayed : ℕ → Store → List Entry → Store
replayed now s log = (replay_wal now s (map as_read log) 0).0

-- One entry more in what was read is one entry more to apply.
step : ℕ → Store → Entry → Store
step now s entry = if skips now entry then s else (apply_entry s entry).0

replay_wal-append :
    (now : ℕ) (reads : List (Option Entry)) (s : Store) (entry : Entry) (n : ℕ)
    → (replay_wal now s (reads ++ some entry ∷ []) n).0
      ≡ step now (replay_wal now s reads n).0 entry
unfolding replay_wal step
replay_wal-append now [] s entry n = refl
replay_wal-append now (none ∷ reads) s entry n = replay_wal-append now reads s entry n
replay_wal-append now (some e ∷ reads) s entry n =
    replay_wal-append now reads (if skips now e then s else (apply_entry s e).0) entry
      (if skips now e then n else if (apply_entry s e).1 then n + 1 else n)

replayed-append :
    (now : ℕ) (s : Store) (log : List Entry) (entry : Entry)
    → replayed now s (log ++ entry ∷ []) ≡ step now (replayed now s log) (wire entry)
unfolding replayed
replayed-append now s log entry =
    ap (λ l. (replay_wal now s l 0).0) (map-append as_read log (entry ∷ []))
    ∙ replay_wal-append now (map as_read log) s (wire entry) 0

-- Requests, each with the writer's answer and the time of the entry.
pub data Request : Type 0 where
  creating : Bool → ℕ → Session → Request
  updating : Bool → ℕ → Session → ℕ → Request
  deleting : Bool → ℕ → Str → Request

unfoldable pub serve : Engine → Request → Engine
serve e (creating accepted time x) = (create accepted time e x).0
serve e (updating accepted time y expected) = (update accepted time e y expected).0
serve e (deleting accepted time id) = (delete accepted time e id).0

unfoldable pub run : Engine → List Request → Engine
run e [] = e
run e (r ∷ rs) = run (serve e r) rs

-- What the recovery at a time needs of a request: a created session does not expire before that
-- time, and an update raised the version by one from the expected one, as the services do.
abbrev pub IsReplayable : ℕ → Request → Type 0
IsReplayable now (creating accepted time x) = now ≤ x.expires_at
IsReplayable now (updating accepted time y expected) =
    expected ≡ (y.version + (2 ^ 64 - 1)) % 2 ^ 64
IsReplayable now (deleting accepted time id) = Unit

abbrev pub AllReplayable : ℕ → List Request → Type 0
AllReplayable now [] = Unit
AllReplayable now (r ∷ rs) = IsReplayable now r × AllReplayable now rs

module _ (now : ℕ) (s : Store) where
  IsDurable : Engine → Type 0
  IsDurable e = replayed now s e.wal ≡ recorded e.store

  serve-IsDurable :
      (e : Engine) (r : Request) → IsReplayable now r → IsDurable e → IsDurable (serve e r)
  unfolding serve IsDurable create update delete step skips apply_entry wire serialized
  serve-IsDurable e (creating true time x) fit d =
      replayed-append now s e.wal (new_create_entry time x)
      ∙ ground (arith, d, create-recorded e.store x)
  serve-IsDurable e (creating false time x) fit d = d
  serve-IsDurable e (updating true time y v) fit d =
      replayed-append now s e.wal (new_update_entry time y)
      ∙ rw (d, fit) (update-recorded e.store y _)
  serve-IsDurable e (updating false time y v) fit d = d
  serve-IsDurable e (deleting true time id) fit d =
      replayed-append now s e.wal (new_delete_entry time id) ∙ rw d (delete-recorded e.store id)
  serve-IsDurable e (deleting false time id) fit d = d

  run-IsDurable :
      (e : Engine) (rs : List Request) → AllReplayable now rs → IsDurable e → IsDurable (run e rs)
  unfolding run
  run-IsDurable e [] fit d = d
  run-IsDurable e (r ∷ rs) fit d = run-IsDurable (serve e r) rs fit.1 (serve-IsDurable e r fit.0 d)

-- For any requests to create, update and delete sessions, whether they succeed, fail or are
-- refused by the log writer: if the store has no session that JSON changes, the created sessions
-- do not expire before the recovery and each update comes with the expected version one below its
-- own, the recovery from an empty snapshot and the whole log gives the store that was lost, with
-- its sessions as JSON keeps them.
pub recover-run :
    (now : ℕ) (s : Store) (rs : List Request)
    → recorded s ≡ s
    → AllReplayable now rs
    → recover now s [] (map as_read (run (record { store = s; wal = [] }) rs).wal)
      ≡ recorded (run (record { store = s; wal = [] }) rs).store
unfolding recover IsDurable replayed
recover-run now s rs plain fit =
    run-IsDurable now s (record { store = s; wal = [] }) rs fit (sym plain)
