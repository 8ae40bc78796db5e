-- ===== src/Domain/Session.antt =====
-- `Session` (src/internal/core/domain/session.go). Times are Unix milliseconds, and the clock that a
-- method reads by `time.Now()` is an argument. The model's times and lifetimes are not negative.
pub mod Valid
mod Tests
use tokmesh_go.Base.{
  ℕ, zero, suc, ◌+◌, ◌-◌, ◌%◌, ◌^◌, ◌/◌, ◌≤◌, ◌<◌, ◌≡◌, Bool, true, false, ◌&&◌, ◌||◌, Option, none,
  some, List, [], ◌∷◌, ◌++◌, length, ltb, ◌==◌, if◌then◌else◌,
}
use tokmesh_go.Domain.Str.{Str, is_empty, truncate}
use tokmesh_go.Domain.Error.{Result, ok, err, session_validation, invalid_argument, ◌>>=◌}
use tokmesh_go.GoMap.{GoMap}

abbrev pub max_user_id_length : ℕ
max_user_id_length = 128

abbrev pub max_ip_address_length : ℕ
max_ip_address_length = 45

abbrev pub max_user_agent_length : ℕ
max_user_agent_length = 512

abbrev pub max_device_id_length : ℕ
max_device_id_length = 128

abbrev pub max_data_key_length : ℕ
max_data_key_length = 64

abbrev pub max_data_value_length : ℕ
max_data_value_length = 1024

abbrev pub max_data_total_size : ℕ
max_data_total_size = 4096

abbrev pub max_sessions_per_user : ℕ
max_sessions_per_user = 50

-- `none` is the nil map.
abbrev pub Data : Type 0
Data = Option (GoMap Str Str)

pub record Session : Type 0 where
  pub id : Str
  pub user_id : Str
  pub token_hash : Str
  pub ip_address : Str
  pub user_agent : Str
  pub last_access_ip : Str
  pub last_access_ua : Str
  pub device_id : Str
  pub created_by : Str
  pub created_at : ℕ
  pub expires_at : ℕ
  pub last_active : ℕ
  pub data_map : Data
  pub version : ℕ
  pub shard_id : ℕ
  pub ttl : ℕ
  pub is_deleted : Bool

-- `NewSession`, with the ID that `GenerateSessionID` returned.
unfoldable pub new_session : Result Str → ℕ → Str → Result Session
new_session generated now user_id =
    if is_empty user_id
    then err invalid_argument
    else if ltb max_user_id_length (length user_id)
    then err invalid_argument
    else do
      id ← generated
      ok (record {
        id = id;
        user_id = user_id;
        token_hash = [];
        ip_address = [];
        user_agent = [];
        last_access_ip = [];
        last_access_ua = [];
        device_id = [];
        created_by = [];
        created_at = now;
        expires_at = 0;
        last_active = now;
        data_map = some [];
        version = 1;
        shard_id = 0;
        ttl = 0;
        is_deleted = false;
      })

unfoldable pub is_expired : ℕ → Session → Bool
is_expired now s = if s.expires_at == 0 then false else ltb s.expires_at now

-- `TTLDuration`, in milliseconds.
unfoldable pub ttl_duration : ℕ → Session → ℕ
ttl_duration now s =
    if s.expires_at == 0 then 0 else if ltb s.expires_at now then 0 else s.expires_at - now

unfoldable pub touch : ℕ → Str → Str → Session → Session
touch now ip user_agent s = record s {
  last_active = now;
  last_access_ip = if is_empty ip then s.last_access_ip else truncate max_ip_address_length ip;
  last_access_ua =
      if is_empty user_agent then s.last_access_ua else truncate max_user_agent_length user_agent;
}

-- The version is a `uint64`.
unfoldable pub incr_version : Session → Session
incr_version s = record s { version = (s.version + 1) % 2 ^ 64 }

-- the loop of `validateData`
unfoldable pub validate_entries : GoMap Str Str → ℕ → Result ℕ
validate_entries [] total = ok total
validate_entries ((k, v) ∷ m) total =
    let rest = validate_entries m (total + (length k + length v)) in
    if ltb max_data_key_length (length k)
    then err session_validation
    else if ltb max_data_value_length (length v)
    then err session_validation
    else rest

unfoldable pub validate_data : Data → Result (Unit {0})
validate_data none = ok tt
validate_data (some m) = do
  total ← validate_entries m 0
  if ltb max_data_total_size total then err session_validation else ok tt

-- Whether `validateData` returns an error.
unfoldable pub data_violates : Data → Bool
unfolding validate_data
data_violates d = elim (validate_data d) [ ok _ ↦ false | err _ ↦ true ]

-- `Validate`: it collects the violations, and fails if there is one.
unfoldable pub validate : Session → Result (Unit {0})
validate s =
    if is_empty s.user_id
      || ltb max_user_id_length (length s.user_id)
      || ltb max_ip_address_length (length s.ip_address)
      || ltb max_user_agent_length (length s.user_agent)
      || ltb max_device_id_length (length s.device_id)
      || data_violates s.data_map
    then err session_validation
    else ok tt

size_entries : GoMap Str Str → ℕ → ℕ
size_entries [] size = size
size_entries ((k, v) ∷ m) size = size_entries m (size + (length k + length v))

unfoldable pub data_size : Session → ℕ
unfolding size_entries
data_size s = elim s.data_map [ none ↦ 0 | some m ↦ size_entries m 0 ]

-- `SetExpiration`; the clock and the lifetime are in nanoseconds, as `time.Duration` is.
unfoldable pub set_expiration : ℕ → ℕ → Session → Session
set_expiration now_ns ttl_ns s = record s {
  expires_at = (now_ns + ttl_ns) / 1000000;
  ttl = ttl_ns / 1000000;
}

unfoldable pub extend_expiration : ℕ → Session → Session
extend_expiration extension_ns s =
    if ltb 0 s.expires_at
    then record s { expires_at = s.expires_at + extension_ns / 1000000 }
    else s

-- A deep copy: values have no identity here, so it is the same value.
unfoldable pub clone : Session → Session
clone s = s
