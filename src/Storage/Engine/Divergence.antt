-- ===== src/Storage/Engine/Divergence.antt =====
-- Where the recovered store differs from the one that was lost.
use tokmesh_go.Base.{
  ℕ, ◌+◌, ◌%◌, ◌^◌, ◌-◌, ◌<◌, ◌≡◌, ◌≢◌, ap, sym, ◌∙◌, true, false, some, [], ◌∷◌, arith,
}
use tokmesh_go.Domain.Str.{str_dec}
use tokmesh_go.Domain.Error.{ok}
use tokmesh_go.Domain.Session.{Session, validate, is_expired, clone, incr_version}
use tokmesh_go.Cmap
use tokmesh_go.Cmap.Laws as CmapLaws
use tokmesh_go.Memory.Store.{Store}
use tokmesh_go.Memory.Store.Invariant.{IsConsistent}
use tokmesh_go.Memory.Change
use tokmesh_go.Storage.Entry.{new_create_entry, new_update_entry}
use tokmesh_go.Storage.Codec.{serialized}
use tokmesh_go.Storage.Codec.RoundTrip.{wire}
use tokmesh_go.Storage.Engine.Recorded.{validate-serialized}
use tokmesh_go.Storage.Engine.Recovery.{as_read}
use tokmesh_go.Storage.Engine.{Engine, update_session, apply_entry, skips, recover}

-- A session without an expiry is not expired at any time, and a recovery at a positive time from
-- the log of its creation alone gives back the store without it.
pub recover_unexpiring :
    (now time : ℕ) (s : Store) (x : Session)
    → x.expires_at ≡ 0
    → 0 < now
    → (is_expired now x ≡ false) × (recover now s [] (as_read (new_create_entry time x) ∷ []) ≡ s)
unfolding is_expired recover skips wire serialized
recover_unexpiring now time s x never later = (ground arith, ground arith)

one_more : (y : Session) → some (record (serialized y) { version = y.version + 1 }) ≡ some y → ⊥
one_more y h = ground arith

module _ (s : Store) (c : IsConsistent s) (x y : Session)
    (here : Cmap.get str_dec s.sessions y.id ≡ some x) (fits : validate y ≡ ok tt)
    (same : x.token_hash ≡ y.token_hash) (raised : y.version ≡ x.version + 1)
    (small : y.version + 1 < 2 ^ 64) where
  live_version :
      (e : Engine) (time : ℕ)
      → e.store ≡ s
      → Cmap.get str_dec (update_session true time e y).0.store.sessions y.id ≡ some y
  unfolding update_session Change.update_session clone
  live_version e time at =
      rw at (ground (arith, CmapLaws.get-set str_dec s.sessions c.sessions_valid y.id y y.id))

  replayed_version :
      (time : ℕ)
      → Cmap.get str_dec (apply_entry s (wire (new_update_entry time y))).0.sessions y.id
        ≡ some (record (serialized y) { version = y.version + 1 })
  unfolding apply_entry Change.update Change.replace Change.retoken clone incr_version wire
      serialized
  replayed_version time =
      let matches : (y.version + (2 ^ 64 - 1)) % 2 ^ 64 ≡ x.version = omega arith in
      let next : (y.version + 1) % 2 ^ 64 ≡ y.version + 1 = omega arith in
      ground (
        arith,
        matches,
        validate-serialized y,
        next,
        CmapLaws.get-set str_dec s.sessions c.sessions_valid y.id
            (record (serialized y) { version = (y.version + 1) % 2 ^ 64 }) y.id,
      )

  -- On a consistent store that holds the session, for a valid session with the same token hash and
  -- the version raised by one (below 2^64 - 1): `UpdateSession` stores it with that version, while
  -- the replay of the entry that `UpdateSession` logs, as it is read from the log, stores it with
  -- the next version, so that the two stores differ.
  pub update_session_diverges :
      (e : Engine) (time : ℕ)
      → e.store ≡ s
      → (Cmap.get str_dec (update_session true time e y).0.store.sessions y.id ≡ some y)
        × (Cmap.get str_dec (apply_entry s (wire (new_update_entry time y))).0.sessions y.id
            ≡ some (record (serialized y) { version = y.version + 1 }))
        × ((apply_entry s (wire (new_update_entry time y))).0
            ≢ (update_session true time e y).0.store)
  update_session_diverges e time at =
      let live = live_version e time at in
      let replayed = replayed_version time in
      (
        live,
        replayed,
        λ same_store.
            one_more y (
              sym replayed
              ∙ ap (λ (t : Store). Cmap.get str_dec t.sessions y.id) same_store
              ∙ live),
      )
