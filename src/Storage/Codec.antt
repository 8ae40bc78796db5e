-- ===== src/Storage/Codec.antt =====
-- The frames of the write-ahead log (src/internal/storage/wal/codec.go and `readOneEntry` of reader.go).
-- JSON, CRC-32, base64 and the cipher are a record of operations with the laws that they keep.
pub mod RoundTrip
pub mod Truncation
mod Tests
use tokmesh_go.Base.{
  ℕ, zero, suc, ◌+◌, ◌*◌, ◌/◌, ◌%◌, ◌^◌, ◌≡◌, ◌<◌, Bool, true, false, not, Option, none, some, List,
  [], ◌∷◌, ◌++◌, ltb, ◌==◌, length, take, drop, if◌then◌else◌,
}
use tokmesh_go.Domain.Str.{Str, is_empty}
use tokmesh_go.Domain.Session.{Session}
use tokmesh_go.Storage.Entry.{Entry, OpType}

abbrev pub Bytes : Type 0
Bytes = List ℕ

-- `wirePayload`
pub record WirePayload : Type 0 where
  pub timestamp : ℕ
  pub session_id : Str
  pub version : ℕ
  pub session : Option Session
  pub encrypted_session : Str

-- A session as JSON carries it: three fields are tagged `json:"-"`.
unfoldable pub serialized : Session → Session
serialized x = record x { shard_id = 0; ttl = 0; is_deleted = false }

abbrev pub serialized_option : Option Session → Option Session
serialized_option none = none
serialized_option (some x) = some (serialized x)

-- `json`, `crc32.ChecksumIEEE` and `base64.StdEncoding`. `IsText` says that the strings of a session
-- are valid UTF-8, which JSON keeps as they are.
pub record Library : Type 1 where
  pub marshal : WirePayload → Bytes
  pub unmarshal : Bytes → Option WirePayload
  pub marshal_session : Session → Bytes
  pub unmarshal_session : Bytes → Option Session
  pub checksum : Bytes → ℕ
  pub encode_base64 : Bytes → Str
  pub decode_base64 : Str → Option Bytes
  pub IsText : WirePayload → Type 0
  pub IsSessionText : Session → Type 0
  pub unmarshal-marshal :
      (p : WirePayload)
      → IsText p
      → unmarshal (marshal p) ≡ some (record p { session = serialized_option p.session })
  pub unmarshal_session-marshal_session :
      (x : Session) → IsSessionText x → unmarshal_session (marshal_session x) ≡ some (serialized x)
  pub checksum-lt : (b : Bytes) → checksum b < 2 ^ 32
  pub decode-encode : (b : Bytes) → decode_base64 (encode_base64 b) ≡ some b
  pub encode-ne-empty : (b : Bytes) → 0 < length b → is_empty (encode_base64 b) ≡ false

-- `adaptive.Cipher`: what was encrypted is never empty, and decrypts to what it was.
pub record Cipher : Type 0 where
  pub encrypt : Bytes → Option Bytes
  pub decrypt : Bytes → Option Bytes
  pub decrypt-encrypt : (x y : Bytes) → encrypt x ≡ some y → decrypt y ≡ some x
  pub encrypt_pos : (x y : Bytes) → encrypt x ≡ some y → 0 < length y

pub data FrameError : Type 0 where
  invalid_entry_type missing_session encrypt_failed corrupted_entry checksum_mismatch : FrameError
  unmarshal_failed missing_payload cipher_required decode_failed decrypt_failed : FrameError

pub data FrameResult {ℓ} (A : Type ℓ) : Type ℓ where
  failed : FrameError → FrameResult A
  done : A → FrameResult A

-- `binary.BigEndian`
abbrev pub put_uint32 : ℕ → Bytes
put_uint32 n = n / 2 ^ 24 % 256 ∷ n / 2 ^ 16 % 256 ∷ n / 2 ^ 8 % 256 ∷ n % 256 ∷ []

abbrev pub uint32 : ℕ → ℕ → ℕ → ℕ → ℕ
uint32 a b c d = ((a * 256 + b) * 256 + c) * 256 + d

abbrev pub op_byte : OpType → ℕ
op_byte OpType.unspecified = 0
op_byte OpType.create = 1
op_byte OpType.update = 2
op_byte OpType.delete = 3

abbrev pub op_of_byte : ℕ → OpType
op_of_byte t =
    if t == 1
    then OpType.create
    else if t == 2
    then OpType.update
    else if t == 3
    then OpType.delete
    else OpType.unspecified

module _ (lib : Library) (cipher : Option Cipher) where
  -- the payload of an entry that carries a session
  unfoldable pub session_payload : WirePayload → Session → FrameResult WirePayload
  session_payload p x = elim cipher [
    | none ↦ done (record p { session = some x })
    | some c ↦ elim (c.encrypt (lib.marshal_session x)) [
      | none ↦ failed encrypt_failed
      | some y ↦ done (record p { encrypted_session = lib.encode_base64 y })
    ]
  ]

  -- the checks of `encodeEntryFrame`, and the payload
  unfoldable pub wire_payload : Entry → FrameResult WirePayload
  wire_payload e =
      let p : WirePayload = record {
        timestamp = e.timestamp;
        session_id = e.session_id;
        version = e.version;
        session = none;
        encrypted_session = [];
      } in
      elim e.op_type [
        | OpType.unspecified ↦ failed invalid_entry_type
        | OpType.delete ↦ done p
        | _ ↦ elim e.session [ none ↦ failed missing_session | some x ↦ session_payload p x ]
      ]

  -- the bytes of a frame; the length is a `uint32`
  unfoldable pub frame_of : OpType → Bytes → FrameResult Bytes
  frame_of op payload =
      let size = (5 + length payload) % 2 ^ 32 in
      if ltb size 5
      then failed corrupted_entry
      else done (
          put_uint32 size
          ++ (put_uint32 (lib.checksum (op_byte op ∷ payload)) ++ op_byte op ∷ payload))

  unfoldable pub encode_entry_frame : Entry → FrameResult Bytes
  encode_entry_frame e = elim (wire_payload e) [
    | failed x ↦ failed x
    | done p ↦ frame_of e.op_type (lib.marshal p)
  ]

  -- the session of a payload that has none in plain text
  unfoldable pub decrypt_session : Str → FrameResult Session
  decrypt_session text = if is_empty text then failed missing_payload else elim cipher [
    | none ↦ failed cipher_required
    | some c ↦ elim (lib.decode_base64 text) [
      | none ↦ failed decode_failed
      | some y ↦ elim (c.decrypt y) [
        | none ↦ failed decrypt_failed
        | some z ↦ elim (lib.unmarshal_session z) [
          | none ↦ failed unmarshal_failed
          | some x ↦ done x
        ]
      ]
    ]
  ]

  unfoldable pub payload_session : WirePayload → FrameResult Session
  payload_session p = elim p.session [
    | some x ↦ done x
    | none ↦ decrypt_session p.encrypted_session
  ]

  -- the entry of a payload
  unfoldable pub entry_of : OpType → WirePayload → FrameResult Entry
  entry_of op p =
      let out : Entry = record {
        op_type = op;
        timestamp = p.timestamp;
        session_id = p.session_id;
        version = p.version;
        session = none;
      } in
      elim op [
        | OpType.unspecified ↦ failed invalid_entry_type
        | OpType.delete ↦ done out
        | _ ↦ elim (payload_session p) [
          | failed x ↦ failed x
          | done x ↦ done (record out { session = some x })
        ]
      ]

  -- `decodeEntryFrame` after its first check: the checksum, the type and the payload
  unfoldable pub decode_parts : ℕ → ℕ → Bytes → FrameResult Entry
  decode_parts want_crc type_byte payload =
      if not (lib.checksum (type_byte ∷ payload) == want_crc)
      then failed checksum_mismatch
      else elim (lib.unmarshal payload) [
        | none ↦ failed unmarshal_failed
        | some p ↦ entry_of (op_of_byte type_byte) p
      ]

  unfoldable pub decode_entry_frame : Bytes → FrameResult Entry
  decode_entry_frame (a ∷ b ∷ c ∷ d ∷ t ∷ payload) = decode_parts (uint32 a b c d) t payload
  decode_entry_frame _ = failed corrupted_entry

-- Whether the reader goes on with the next segment after an error.
abbrev pub is_closing : FrameError → Bool
is_closing corrupted_entry = true
is_closing checksum_mismatch = true
is_closing invalid_entry_type = true
is_closing _ = false

-- What `Read` makes of the bytes left in a segment: it closes the segment, or returns an error or an
-- entry with the bytes that are left.
pub data Reading : Type 0 where
  closes : Reading
  fails : Bytes → Reading
  reads : Entry → Bytes → Reading

module _ (lib : Library) (cipher : Option Cipher) where
  unfoldable pub read_frame : Bytes → Bytes → Reading
  read_frame frame rest = elim (decode_entry_frame lib cipher frame) [
    | done e ↦ reads e rest
    | failed x ↦ if is_closing x then closes else fails rest
  ]

  -- the frame of a length that was read, if it is whole
  unfoldable pub read_length : ℕ → Bytes → Reading
  read_length size rest =
      if ltb size 5
      then closes
      else if ltb (length rest) size
      then closes
      else read_frame (take size rest) (drop size rest)

  -- `readOneEntry`, and what `Read` does with its errors
  unfoldable pub read_one_entry : Bytes → Reading
  read_one_entry (a ∷ b ∷ c ∷ d ∷ rest) = read_length (uint32 a b c d) rest
  read_one_entry _ = closes

  -- What the repeated `Read` returns until it closes a segment, `none` for an error. An entry takes at
  -- least nine bytes, so the length of the bytes is fuel enough.
  unfoldable pub read_entries : ℕ → Bytes → List (Option Entry)
  read_entries zero bytes = []
  read_entries (suc fuel) bytes = elim (read_one_entry bytes) [
    | closes ↦ []
    | fails rest ↦ none ∷ read_entries fuel rest
    | reads e rest ↦ some e ∷ read_entries fuel rest
  ]
