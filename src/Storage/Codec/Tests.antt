-- ===== src/Storage/Codec/Tests.antt =====
-- Frames as they are written and read, and instances of the theorems on them.
use tokmesh_go.Base.{◌≡◌, refl, none, some, [], ◌∷◌, ◌++◌}
use tokmesh_go.Memory.Samples.{bob}
use tokmesh_go.Storage.Entry.{Entry, new_create_entry}
use tokmesh_go.Storage.Codec.{
  Bytes, WirePayload, failed, checksum_mismatch, corrupted_entry, wire_payload, session_payload,
  encode_entry_frame, frame_of, decode_entry_frame, decode_parts, read_one_entry, reads,
}
use tokmesh_go.Storage.Codec.RoundTrip.{wire, IsLoggable, read_one_entry-encode}
use tokmesh_go.Storage.Samples.{toy, toy_cipher, entry-IsLoggable}

abbrev creation : Entry
creation = new_create_entry 2000 bob

abbrev secret_payload : WirePayload
secret_payload = record {
  timestamp = 2000;
  session_id = bob.id;
  version = 1;
  session = none;
  encrypted_session = 7 ∷ 50 ∷ 1 ∷ [];
}

abbrev secret_frame : Bytes
secret_frame = 0 ∷ 0 ∷ 0 ∷ 6 ∷ 0 ∷ 0 ∷ 0 ∷ 2 ∷ 1 ∷ 208 ∷ []

creation-IsLoggable : IsLoggable toy (some toy_cipher) creation
unfolding wire_payload session_payload
creation-IsLoggable =
    entry-IsLoggable (some toy_cipher) creation secret_payload bob refl refl refl refl

read_one_entry-encode_example :
    read_one_entry toy (some toy_cipher) (secret_frame ++ 1 ∷ 2 ∷ [])
    ≡ reads (wire creation) (1 ∷ 2 ∷ [])
unfolding encode_entry_frame wire_payload session_payload frame_of
read_one_entry-encode_example =
    read_one_entry-encode toy (some toy_cipher) creation secret_frame (1 ∷ 2 ∷ [])
      creation-IsLoggable refl

-- a byte of the payload that was changed, and a frame that is too short
changed_test : decode_entry_frame toy none (0 ∷ 0 ∷ 0 ∷ 3 ∷ 1 ∷ 208 ∷ []) ≡ failed checksum_mismatch
unfolding decode_entry_frame decode_parts
changed_test = refl

short_test : decode_entry_frame toy none (0 ∷ 0 ∷ 0 ∷ 2 ∷ []) ≡ failed corrupted_entry
unfolding decode_entry_frame
short_test = refl
