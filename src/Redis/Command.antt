-- ===== src/Redis/Command.antt =====
-- The commands (src/internal/server/redisserver/command.go) on the services that they call. A handler
-- returns the state of the services, that of the connection, and the replies that it writes. The services
-- are a record of operations, whose state is that of the storage; strconv, JSON and strings.ToUpper are
-- another. The answer of the rate limiter is an argument, and a quit closes the connection.
pub mod Handlers
pub mod Handle
pub mod Access
mod Tests
use tokmesh_go.Base.{
  ℕ, ◌+◌, ◌-◌, ◌≡◌, Bool, true, false, not, ◌&&◌, ◌||◌, Option, none, some, List, [], ◌∷◌, ◌++◌,
  map, length, ltb, leb, ◌==◌, if◌then◌else◌, ite,
}
use tokmesh_go.Domain.Str.{Str, str_dec, is_empty, bytes}
use tokmesh_go.Domain.Strings.{str_eq}
use tokmesh_go.Domain.Error.{
  Code, Result, ok, err, is_domain_error, session_not_found, session_expired,
}
use tokmesh_go.Domain.Session.{Session}
use tokmesh_go.Redis.Resp.{Number, pos, negsuc}
use tokmesh_go.Redis.Glob.{match_glob}

pub record ApiKeyInfo : Type 0 where
  pub key_id : Str
  pub role : Str

pub record ConnState : Type 0 where
  pub authenticated : Bool
  pub api_key : Option ApiKeyInfo

-- `sessionSetRequest`, as JSON fills it.
pub record SetRequest : Type 0 where
  pub user_id : Str
  pub token : Str
  pub device_id : Str
  pub data_map : Option (List (Str × Str))

-- The services. A lifetime is in seconds; `none` stands for 24 hours.
pub record Services : Type 1 where
  pub State : Type 0
  pub get : State → Str → Result Session
  pub create_with_token : State → Str → SetRequest → Option Number → State × Result (Unit {0})
  pub create_with_id : State → Str → SetRequest → Option Number → State × Result Str
  pub update : State → Str → SetRequest → Option Number → State × Result (Unit {0})
  pub revoke : State → Str → State × Result (Unit {0})
  pub renew : State → Str → Number → State × Result (Unit {0})
  pub touch : State → Str → (ip : Str) → State × Result ℕ
  pub revoke_by_user : State → Str → State × Result ℕ
  pub list : State → (page page_size : Number) → Result (List Session)
  pub validate_token : State → Str → (touch : Bool) → (ip : Str) → State × Bool
  pub validate_api_key : State → (key_id key_secret : Str) → State × Option ApiKeyInfo
  pub remaining_seconds : State → Session → Option ℕ

pub record Syntax : Type 0 where
  pub to_upper : Str → Str
  pub parse_int : Str → Option Number
  pub parse_request : Str → Option SetRequest
  pub marshal_session : Session → Option Str
  pub format_int : Number → Str

pub data Failure : Type 0 where
  no_command no_auth rate_limited permission_denied unknown_command : Failure
  wrong_number syntax_error not_an_integer invalid_json invalid_cursor too_many_keys : Failure
  invalid_auth_format invalid_credentials token_required token_rotation marshal_failed : Failure
  token_invalid touch_not_found : Failure
  service : Code → Failure

pub data Reply : Type 0 where
  simple bulk : Str → Reply
  null_bulk : Reply
  integer : Number → Reply
  failure : Failure → Reply
  array : ℕ → Reply

pub data Command : Type 0 where
  ping auth quit get set del expire ttl exists scan : Command
  tm_create tm_validate tm_touch tm_revoke_user other : Command

-- The name of a command, in upper case.
unfoldable pub command_of : Str → Command
command_of name =
    if str_eq name (bytes "PING")
    then ping
    else if str_eq name (bytes "AUTH")
    then auth
    else if str_eq name (bytes "QUIT")
    then quit
    else if str_eq name (bytes "GET")
    then get
    else if str_eq name (bytes "SET")
    then set
    else if str_eq name (bytes "DEL")
    then del
    else if str_eq name (bytes "EXPIRE")
    then expire
    else if str_eq name (bytes "TTL")
    then ttl
    else if str_eq name (bytes "EXISTS")
    then exists
    else if str_eq name (bytes "SCAN")
    then scan
    else if str_eq name (bytes "TM.CREATE")
    then tm_create
    else if str_eq name (bytes "TM.VALIDATE")
    then tm_validate
    else if str_eq name (bytes "TM.TOUCH")
    then tm_touch
    else if str_eq name (bytes "TM.REVOKE_USER")
    then tm_revoke_user
    else other

abbrev pub is_read : Command → Bool
is_read get = true
is_read ttl = true
is_read exists = true
is_read scan = true
is_read tm_validate = true
is_read tm_touch = true
is_read _ = false

abbrev pub is_write : Command → Bool
is_write set = true
is_write del = true
is_write expire = true
is_write tm_create = true
is_write tm_revoke_user = true
is_write _ = false

-- The `switch` of `checkPermission`.
unfoldable pub role_allows : Str → Command → Bool
role_allows role c =
    if str_eq role (bytes "admin")
    then true
    else if is_read c
    then str_eq role (bytes "validator") || str_eq role (bytes "issuer")
    else if is_write c
    then str_eq role (bytes "issuer")
    else false

unfoldable pub check_permission : ConnState → Command → Bool
check_permission st c = elim st.api_key [ none ↦ false | some k ↦ role_allows k.role c ]

-- `strings.SplitN(s, ":", 2)`, with a colon.
unfoldable pub split_colon : Str → Option (Str × Str)
split_colon [] = none
split_colon (b ∷ s) =
    let rest = split_colon s in
    if b == 58 then some ([], s) else elim rest [ none ↦ none | some p ↦ some (b ∷ p.0, p.1) ]

-- What SET reads of its options, and SCAN of its own.
pub data Parsed {ℓ} (A : Type ℓ) : Type ℓ where
  refused : Failure → Parsed A
  parsed : A → Parsed A

-- The key's ID and secret from the arguments of AUTH.
unfoldable pub credentials : List Str → Parsed (Str × Str)
credentials (both ∷ []) = elim (split_colon both) [
  | none ↦ refused invalid_auth_format
  | some p ↦ parsed p
]
credentials (key_id ∷ key_secret ∷ []) = parsed (key_id, key_secret)
credentials _ = refused wrong_number

pub record ScanOptions : Type 0 where
  pub pattern_text : Str
  pub count : Number

module _ (syn : Syntax) where
  -- The loop over the options of SET.
  unfoldable pub set_options : Option Number → List Str → Parsed (Option Number)
  set_options seconds [] = parsed seconds
  set_options seconds (o ∷ []) = refused syntax_error
  set_options seconds (o ∷ v ∷ rest) =
      let found = syn.parse_int v in
      elim (if str_eq (syn.to_upper o) (bytes "EX") then found else some (pos 0)) [
        | none ↦ refused not_an_integer
        | some n ↦
            set_options (if str_eq (syn.to_upper o) (bytes "EX") then found else seconds) rest
      ]

  -- The loop over the options of SCAN.
  unfoldable pub scan_options : ScanOptions → List Str → Parsed ScanOptions
  scan_options so [] = parsed so
  scan_options so (o ∷ []) = refused syntax_error
  scan_options so (o ∷ v ∷ rest) =
      let is_match = str_eq (syn.to_upper o) (bytes "MATCH") in
      let is_count = str_eq (syn.to_upper o) (bytes "COUNT") in
      let found = syn.parse_int v in
      elim (if is_count then found else some so.count) [
        | none ↦ refused not_an_integer
        | some n ↦
            scan_options
              (record { pattern_text = if is_match then v else so.pattern_text; count = n }) rest
      ]
