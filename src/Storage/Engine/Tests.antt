-- ===== src/Storage/Engine/Tests.antt =====
-- Runs of the engine, and instances of its theorems.
use tokmesh_go.Base.{none, take, ◌++◌, ◌≡◌, ◌≢◌, refl, true, false, some, List, [], ◌∷◌, map, arith}
use tokmesh_go.Domain.Str.{str_dec}
use tokmesh_go.Domain.Session.{Session, is_expired}
use tokmesh_go.Cmap
use tokmesh_go.Memory.Samples.{alice, bob, program, s0, s2, s2-IsConsistent, bob_there}
use tokmesh_go.Storage.Entry.{new_create_entry, new_update_entry}
use tokmesh_go.Storage.Engine.{create, update, delete, Engine, update_session, apply_entry, recover}
use tokmesh_go.Storage.Engine.Recovery.{serve, Request, run, as_read}
use tokmesh_go.Storage.Engine.Divergence
use tokmesh_go.Storage.Engine.Samples.{script, frames, frames-AllLoggable, recorded-s0}
use tokmesh_go.Storage.Engine.Crash.{blank, recover_crash}
use tokmesh_go.Storage.Engine.Recorded.{recorded}
use tokmesh_go.Storage.Codec.{read_entries, serialized}
use tokmesh_go.Storage.Codec.RoundTrip.{wire}
use tokmesh_go.Storage.Codec.Truncation.{log_bytes, whole}
use tokmesh_go.Storage.Samples.{toy}

-- a log that was cut off in its third frame
recover_crash_example :
    (p : List Request) × (q : List Request) × (script ≡ p ++ q)
    × (map as_read (run (blank s0) p).wal ≡ whole 25 frames)
    × (recover 2000 s0 [] (read_entries toy none 25 (take 25 (log_bytes frames)))
        ≡ recorded (run (blank s0) p).store)
unfolding run serve create update delete
recover_crash_example =
    recover_crash toy none 2000 25 25 s0 script frames recorded-s0
      (omega arith, (omega arith, (refl, (tt, (tt, tt))))) refl frames-AllLoggable (omega arith)

recover_unexpiring_example :
    (is_expired 2000 (record alice { expires_at = 0 }) ≡ false)
    × (recover 2000 s0 [] (as_read (new_create_entry 1000 (record alice { expires_at = 0 })) ∷ [])
        ≡ s0)
recover_unexpiring_example =
    Divergence.recover_unexpiring 2000 1000 s0 (record alice { expires_at = 0 }) refl (omega arith)

-- bob, touched by the validation of his token
abbrev touched : Session
touched = record bob { version = 2; last_active = 2000 }

abbrev running : Engine
running = record { store = s2; wal = [] }

update_session_diverges_example :
    (Cmap.get str_dec (update_session true 2000 running touched).0.store.sessions touched.id
      ≡ some touched)
    × (Cmap.get str_dec
          (apply_entry s2 (wire (new_update_entry 2000 touched))).0.sessions
          touched.id
        ≡ some (record (serialized touched) { version = 3 }))
    × ((apply_entry s2 (wire (new_update_entry 2000 touched))).0
        ≢ (update_session true 2000 running touched).0.store)
unfolding program
update_session_diverges_example =
    Divergence.update_session_diverges s2 s2-IsConsistent bob touched bob_there refl refl refl
      (omega arith) running 2000 refl
