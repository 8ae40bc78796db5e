-- ===== src/Storage/Snapshot.antt =====
-- Snapshots (src/internal/storage/snapshot/manager.go): files with a magic, a header, the sessions and
-- a checksum. JSON, SHA-256 and the cipher are arguments. The bytes of one file.
pub mod RoundTrip
pub mod Directory
pub mod Create
pub mod Retention
mod Tests
use tokmesh_go.Base.{
  ℕ, zero, suc, ◌+◌, ◌-◌, ◌*◌, ◌/◌, ◌%◌, ◌^◌, ◌≡◌, ◌<◌, Bool, true, false, not, ◌&&◌, ◌||◌, Option,
  none, some, List, [], ◌∷◌, ◌++◌, ltb, leb, ◌==◌, length, take, drop, if◌then◌else◌, ite,
}
use tokmesh_go.Domain.Str.{Str, str_dec, is_empty, bytes}
use tokmesh_go.Domain.Session.{Session}
use tokmesh_go.Storage.Codec.{Bytes, Cipher, put_uint32, uint32}

abbrev pub magic_bytes : Bytes
magic_bytes = bytes "TOKMSNAP"

abbrev pub file_prefix : Str
file_prefix = bytes "snapshot-"

abbrev pub file_extension : Str
file_extension = bytes ".snap"

abbrev pub checksum_size : ℕ
checksum_size = 32

abbrev pub default_retention_count : ℕ
default_retention_count = 5

abbrev pub default_retention_days : ℕ
default_retention_days = 7

pub record Header : Type 0 where
  pub version : ℕ
  pub created_at : ℕ
  pub node_id : Str
  pub session_count : ℕ
  pub wal_last_offset : ℕ
  pub encrypted : Bool

-- JSON of a header and of the list of sessions, all of whose fields a snapshot keeps.
pub record Library : Type 1 where
  pub marshal_header : Header → Bytes
  pub unmarshal_header : Bytes → Option Header
  pub marshal_sessions : List Session → Bytes
  pub unmarshal_sessions : Bytes → Option (List Session)
  pub sha256 : Bytes → Bytes
  pub IsHeaderText : Header → Type 0
  pub IsText : List Session → Type 0
  pub header_lem : (h : Header) → IsHeaderText h → unmarshal_header (marshal_header h) ≡ some h
  pub header_pos : (h : Header) → 0 < length (marshal_header h)
  pub sessions_lem :
      (l : List Session) → IsText l → unmarshal_sessions (marshal_sessions l) ≡ some l
  pub sha256_size : (b : Bytes) → length (sha256 b) ≡ checksum_size

pub record Config : Type 0 where
  pub retention_count : ℕ
  pub retention_days : ℕ
  pub cipher : Option Cipher
  pub node_id : Str

-- `NewManager`: a zero stands for the default.
unfoldable pub new_manager : Config → Config
new_manager c = record c {
  retention_count = if c.retention_count == 0 then default_retention_count else c.retention_count;
  retention_days = if c.retention_days == 0 then default_retention_days else c.retention_days;
}

pub record Info : Type 0 where
  pub wal_last_offset : ℕ
  pub session_count : ℕ
  pub created_at : ℕ
  pub size : ℕ
  pub checksum : Bytes
  pub node_id : Str

pub data LoadError : Type 0 where
  checksum_mismatch invalid_magic unreadable : LoadError

pub data Loaded : Type 0 where
  failed : LoadError → Loaded
  loaded : List Session → Info → Loaded

-- `io.ReadFull` of `n` bytes.
unfoldable pub read_full : ℕ → Bytes → Option (Bytes × Bytes)
read_full n b = if ltb (length b) n then none else some (take n b, drop n b)

-- `binary.BigEndian.Uint32` of the next four bytes.
unfoldable pub read_uint32 : Bytes → Option (ℕ × Bytes)
read_uint32 (a ∷ b ∷ c ∷ d ∷ r) = some (uint32 a b c d, r)
read_uint32 _ = none

-- A block behind its length.
unfoldable pub read_block : Bytes → Option (Bytes × Bytes)
read_block b = elim (read_uint32 b) [ none ↦ none | some (n, r) ↦ read_full n r ]

-- The data block, encrypted as the configuration has it.
abbrev pub sealed : Option Cipher → Bytes → Option Bytes
sealed none b = some b
sealed (some c) b = c.encrypt b

abbrev pub is_encrypting : Option Cipher → Bool
is_encrypting none = false
is_encrypting (some c) = true

abbrev pub header : Config → (now : ℕ) → List Session → (offset : ℕ) → Header
header cfg now sessions offset = record {
  version = 1;
  created_at = now;
  node_id = cfg.node_id;
  session_count = length sessions;
  wal_last_offset = offset;
  encrypted = is_encrypting cfg.cipher;
}

-- What the checksum is over.
abbrev pub body_of : Bytes → Bytes → Bytes
body_of header_json block =
    magic_bytes
    ++ (put_uint32 (length header_json) ++ (header_json ++ (put_uint32 (length block) ++ block)))

abbrev pub info_of : Header → ℕ → Bytes → Info
info_of h size sum = record {
  wal_last_offset = h.wal_last_offset;
  session_count = h.session_count;
  created_at = h.created_at;
  size = size;
  checksum = sum;
  node_id = h.node_id;
}

module _ (lib : Library) (cfg : Config) where
  abbrev pub with_sum : Bytes → Bytes
  with_sum body = body ++ lib.sha256 body

  -- The bytes that `Create` writes; `none` where the encryption fails.
  unfoldable pub encode_file : (now : ℕ) → List Session → (offset : ℕ) → Option Bytes
  encode_file now sessions offset = elim (sealed cfg.cipher (lib.marshal_sessions sessions)) [
    | none ↦ none
    | some block ↦
        some (with_sum (body_of (lib.marshal_header (header cfg now sessions offset)) block))
  ]

  -- The sessions of a data block. A manager with no cipher takes an encrypted block for no sessions.
  unfoldable pub decode_sessions : Bool → Bytes → Option (List Session)
  decode_sessions encrypted block = elim cfg.cipher [
    | none ↦ if encrypted then some [] else lib.unmarshal_sessions block
    | some c ↦
        if encrypted
        then elim (c.decrypt block) [ none ↦ none | some plain ↦ lib.unmarshal_sessions plain ]
        else none
  ]

  -- The data block and what it gives.
  unfoldable pub load_data : Header → (size : ℕ) → (sum : Bytes) → Bytes → Loaded
  load_data h size sum rest = elim (read_block rest) [
    | none ↦ failed unreadable
    | some (block, _) ↦ elim (decode_sessions h.encrypted block) [
      | none ↦ failed unreadable
      | some sessions ↦ loaded sessions (info_of h size sum)
    ]
  ]

  -- The header, which must not be empty.
  unfoldable pub load_header : (size : ℕ) → (sum : Bytes) → Bytes → Loaded
  load_header size sum rest = elim (read_block rest) [
    | none ↦ failed unreadable
    | some ([], _) ↦ failed unreadable
    | some (x ∷ header_json, after) ↦ elim (lib.unmarshal_header (x ∷ header_json)) [
      | none ↦ failed unreadable
      | some h ↦ load_data h size sum after
    ]
  ]

  -- `loadFile`
  unfoldable pub load_file : Bytes → Loaded
  load_file file =
      let size = length file in
      let body = take (size - checksum_size) file in
      let sum = drop (size - checksum_size) file in
      if ltb size (length magic_bytes + checksum_size)
      then failed checksum_mismatch
      else ite (str_dec (lib.sha256 body) sum)
          (ite (str_dec (take 8 body) magic_bytes) (load_header size sum (drop 8 body))
            (failed invalid_magic))
          (failed checksum_mismatch)
