-- ===== src/Storage/Engine/Crash.antt =====
-- The recovery from a log that was cut off while it was written.
use tokmesh_go.Base.{
  ℕ, zero, suc, ◌-◌, ◌≤◌, ◌≡◌, refl, ap, sym, subst, ◌∙◌, ◌⊎◌, true, false, Option, List, [], ◌∷◌,
  ◌++◌, map, take, ltb, length, Bool-cases, inl, inr,
}
use mathlib.Core.List.{append-nil, append_assoc}
use tokmesh_go.Storage.Entry.{Entry, new_create_entry, new_update_entry, new_delete_entry}
use tokmesh_go.Storage.Codec.{Bytes, Library, Cipher, read_entries}
use tokmesh_go.Storage.Codec.Truncation.{log_bytes, whole, AllLoggable, read_entries-truncated}
use tokmesh_go.Memory.Store.{Store}
use tokmesh_go.Storage.Engine.{Engine, create, update, delete, recover}
use tokmesh_go.Storage.Engine.Recorded.{recorded}
use tokmesh_go.Storage.Engine.Recovery.{
  Request, creating, updating, deleting, serve, run, AllReplayable, as_read, recover-run,
}

-- What a request adds to the log.
logged_by : Request → List Entry
logged_by (creating true time x) = new_create_entry time x ∷ []
logged_by (updating true time y expected) = new_update_entry time y ∷ []
logged_by (deleting true time id) = new_delete_entry time id ∷ []
logged_by _ = []

unfoldable logged : List Request → List Entry
logged [] = []
logged (r ∷ rs) = logged_by r ++ logged rs

serve-logged : (e : Engine) (r : Request) → (serve e r).wal ≡ e.wal ++ logged_by r
unfolding serve create update delete logged_by
serve-logged e (creating true time x) = refl
serve-logged e (creating false time x) = sym (append-nil e.wal)
serve-logged e (updating true time y v) = refl
serve-logged e (updating false time y v) = sym (append-nil e.wal)
serve-logged e (deleting true time id) = refl
serve-logged e (deleting false time id) = sym (append-nil e.wal)

run-logged : (e : Engine) (rs : List Request) → (run e rs).wal ≡ e.wal ++ logged rs
unfolding run logged
run-logged e [] = sym (append-nil e.wal)
run-logged e (r ∷ rs) =
    run-logged (serve e r) rs
    ∙ ap (λ l. l ++ logged rs) (serve-logged e r)
    ∙ append_assoc e.wal (logged_by r) (logged rs)

logged_by-cases : (r : Request) → (logged_by r ≡ []) ⊎ ((x : Entry) × (logged_by r ≡ x ∷ []))
unfolding logged_by
logged_by-cases (creating true time x) = inr (new_create_entry time x, refl)
logged_by-cases (creating false time x) = inl refl
logged_by-cases (updating true time y v) = inr (new_update_entry time y, refl)
logged_by-cases (updating false time y v) = inl refl
logged_by-cases (deleting true time id) = inr (new_delete_entry time id, refl)
logged_by-cases (deleting false time id) = inl refl

-- A prefix of the log is the log of a prefix of the requests.
abbrev Split : List Request → ℕ → Type 0
Split rs k =
    (p : List Request) × (q : List Request) × (rs ≡ p ++ q) × (logged p ≡ take k (logged rs))

split : (rs : List Request) (k : ℕ) → Split rs k
unfolding logged
split [] zero = ([], [], refl, refl)
split [] (suc k) = ([], [], refl, refl)
split (r ∷ rs) zero = ([], r ∷ rs, refl, refl)
split (r ∷ rs) (suc k) = elim (logged_by-cases r) [
  | inl e ↦
      let (p, q, both, prefix) = split rs (suc k) in
      (
        r ∷ p,
        q,
        ap (◌∷◌ r) both,
        ap (λ l. l ++ logged p) e ∙ prefix ∙ sym (ap (λ l. take (suc k) (l ++ logged rs)) e),
      )
  | inr (x, e) ↦
      let (p, q, both, prefix) = split rs k in
      (
        r ∷ p,
        q,
        ap (◌∷◌ r) both,
        ap (λ l. l ++ logged p) e
            ∙ ap (◌∷◌ x) prefix
            ∙ sym (ap (λ l. take (suc k) (l ++ logged rs)) e),
      )
]

AllReplayable-prefix :
    (now : ℕ) (p q : List Request) → AllReplayable now (p ++ q) → AllReplayable now p
AllReplayable-prefix now [] q all = tt
AllReplayable-prefix now (r ∷ p) q all = (all.0, AllReplayable-prefix now p q all.1)

abbrev pub entries : List (Entry × Bytes) → List Entry
entries [] = []
entries ((e, b) ∷ frames) = e ∷ entries frames

-- The whole frames are those of the first entries.
whole-take :
    (n : ℕ) (frames : List (Entry × Bytes))
    → (k : ℕ) × (whole n frames ≡ map as_read (take k (entries frames)))
unfolding whole
whole-take n [] = (0, refl)
whole-take n ((e, b) ∷ frames) = elim (Bool-cases (ltb n (length b))) [
  | inl cut ↦ (0, rw cut refl)
  | inr fits ↦
      let (k, h) = whole-take (n - length b) frames in (suc k, rw fits (ap (◌∷◌ (as_read e)) h))
]

abbrev pub blank : Store → Engine
blank s = record { store = s; wal = [] }

module _ (lib : Library) (cipher : Option Cipher) where
  -- For requests as in `recover-run` whose log entries can be framed: when the log is cut off
  -- after any number of bytes, and the reader has that much fuel, the recovery from an empty
  -- snapshot and what the reader returns gives the store that some first part of the requests
  -- leaves, with its sessions as JSON keeps them; the entries that those requests logged are
  -- exactly those whose frames are whole.
  pub recover_crash :
      (now fuel n : ℕ) (s : Store) (rs : List Request) (frames : List (Entry × Bytes))
      → recorded s ≡ s
      → AllReplayable now rs
      → entries frames ≡ (run (blank s) rs).wal
      → AllLoggable lib cipher frames
      → n ≤ fuel
      → (p : List Request) × (q : List Request) × (rs ≡ p ++ q)
        × (map as_read (run (blank s) p).wal ≡ whole n frames)
        × (recover now s [] (read_entries lib cipher fuel (take n (log_bytes frames)))
            ≡ recorded (run (blank s) p).store)
  recover_crash now fuel n s rs frames plain fit same loggable enough =
      let (k, cut) = whole-take n frames in
      let (p, q, both, prefix) = split rs k in
      let kept : map as_read (run (blank s) p).wal ≡ whole n frames =
        ap (map as_read)
          (run-logged (blank s) p ∙ prefix ∙ sym (ap (take k) (same ∙ run-logged (blank s) rs)))
        ∙ sym cut in
      let fit_first = AllReplayable-prefix now p q (subst (AllReplayable now) both fit) in
      (
        p,
        q,
        both,
        kept,
        ap (recover now s [])
              (read_entries-truncated lib cipher fuel n frames loggable enough ∙ sym kept)
            ∙ recover-run now s p plain fit_first,
      )
