-- ===== src/Domain/Session/Valid.antt =====
-- What `Validate` accepts, and the methods that keep it.
use tokmesh_go.Base.{
  ℕ, ◌+◌, ◌≤◌, ◌<◌, ◌≡◌, ◌≢◌, ◌↔◌, ◌/◌, inl, inr, Option-cases, refl, false, none, some, [], ◌∷◌,
  length, ltb, arith,
}
use tokmesh_go.Domain.Str.{Str}
use tokmesh_go.Domain.Error.{Code, ok, err, Result-cases, session_validation}
use tokmesh_go.GoMap.{GoMap}
use tokmesh_go.Domain.Session.{
  Session, Data, validate_entries, validate_data, data_violates, validate, size_entries, data_size,
  touch, is_expired, ttl_duration, set_expiration,
}

abbrev pub FitEntries : GoMap Str Str → Type 0
FitEntries [] = Unit
FitEntries ((k, v) ∷ m) = (length k ≤ 64) × (length v ≤ 1024) × FitEntries m

abbrev pub FitsData : Data → Type 0
FitsData none = Unit
FitsData (some m) = FitEntries m

-- The documented limits of a session.
pub record IsWithinLimits (s : Session) : Type 0 where
  pub user_given : s.user_id ≢ []
  pub user_fits : length s.user_id ≤ 128
  pub ip_fits : length s.ip_address ≤ 45
  pub agent_fits : length s.user_agent ≤ 512
  pub device_fits : length s.device_id ≤ 128
  pub data_fits : FitsData s.data_map
  pub total_fits : data_size s ≤ 4096

validate_entries-ok :
    (m : GoMap Str Str) (n : ℕ) → FitEntries m → validate_entries m n ≡ ok (size_entries m n)
unfolding validate_entries size_entries
validate_entries-ok [] n h = refl
validate_entries-ok ((k, v) ∷ m) n h =
    ground (arith, validate_entries-ok m (n + (length k + length v)) h.2)

validate_entries-inv :
    (m : GoMap Str Str) (n t : ℕ)
    → validate_entries m n ≡ ok t
    → FitEntries m × (t ≡ size_entries m n)
unfolding validate_entries size_entries
validate_entries-inv [] n t h = (tt, cc)
validate_entries-inv ((k, v) ∷ m) n t h =
    ground (arith, validate_entries-inv m (n + (length k + length v)) t)

validate_data-ok :
    (m : GoMap Str Str) → FitEntries m → size_entries m 0 ≤ 4096 → data_violates (some m) ≡ false
unfolding data_violates validate_data
validate_data-ok m fit small = ground (arith, validate_entries-ok m 0 fit)

validate_data-inv :
    (m : GoMap Str Str) → data_violates (some m) ≡ false → FitEntries m × (size_entries m 0 ≤ 4096)
unfolding data_violates validate_data
validate_data-inv m h = elim (Result-cases (validate_entries m 0)) [
  | inl (t, e) ↦ let (fit, size) = validate_entries-inv m 0 t e in (fit, ground arith)
  | inr (c, e) ↦ absurd (ground arith)
]

data_violates-false_iff :
    (s : Session)
    → (data_violates s.data_map ≡ false) ↔ (FitsData s.data_map × (data_size s ≤ 4096))
unfolding data_size
data_violates-false_iff s = elim (Option-cases s.data_map) [
  | inl e ↦ rw e ((λ h. (tt, omega arith)), (λ h. unfold data_violates validate_data in refl))
  | inr (m, e) ↦ rw e (validate_data-inv m, (λ h. validate_data-ok m h.0 h.1))
]

validate-within : (s : Session) → validate s ≡ ok tt → IsWithinLimits s
unfolding validate
validate-within s h =
    let fields : (s.user_id ≢ [])
        × (length s.user_id ≤ 128)
        × (length s.ip_address ≤ 45)
        × (length s.user_agent ≤ 512)
        × (length s.device_id ≤ 128)
        × (data_violates s.data_map ≡ false) =
      ground arith in
    let stored = (data_violates-false_iff s).0 fields.5 in
    record {
      user_given = fields.0;
      user_fits = fields.1;
      ip_fits = fields.2;
      agent_fits = fields.3;
      device_fits = fields.4;
      data_fits = stored.0;
      total_fits = stored.1;
    }

within-validate : (s : Session) → IsWithinLimits s → validate s ≡ ok tt
unfolding validate
within-validate s w = ground (arith, (data_violates-false_iff s).1 (w.data_fits, w.total_fits))

-- `Validate` succeeds exactly on the sessions within the documented limits: a user ID that is not
-- empty, each text within its length, and the data within its limits for a key, a value and the
-- total.
pub validate-ok_iff : (s : Session) → (validate s ≡ ok tt) ↔ IsWithinLimits s
validate-ok_iff s = (validate-within s, within-validate s)

-- A touch cannot make a valid session invalid, and bounds what it stores.
pub touch-keeps :
    (now : ℕ) (ip agent : Str) (s : Session) → validate (touch now ip agent s) ≡ validate s
unfolding touch validate
touch-keeps now ip agent s = refl

-- A session with a lifetime left is not expired, and the other way round.
pub ttl_duration-pos :
    (now : ℕ) (s : Session)
    → 0 < ttl_duration now s
    → (is_expired now s ≡ false) × (now + ttl_duration now s ≡ s.expires_at)
unfolding ttl_duration is_expired
ttl_duration-pos now s h = ground arith

-- Right after `SetExpiration` a session with a positive end is live for its whole lifetime, and expired after it.
pub set_expiration_exact :
    (now_ns ttl_ns now : ℕ) (s : Session)
    → 1000000 ≤ now_ns
    → is_expired now (set_expiration now_ns ttl_ns s) ≡ ltb ((now_ns + ttl_ns) / 1000000) now
unfolding set_expiration is_expired
set_expiration_exact now_ns ttl_ns now s h = ground arith

-- `Validate` fails with one code only.
pub validate_err : (s : Session) {c : Code} → validate s ≡ err c → c ≡ session_validation
unfolding validate
validate_err s h = ground arith
