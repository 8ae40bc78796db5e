-- ===== src/Storage/Engine/Samples.antt =====
-- A run of the engine and its log, for the tests.
use tokmesh_go.Base.{◌≡◌, refl, true, false, none, List, [], ◌∷◌}
use tokmesh_go.Cmap
use tokmesh_go.Cmap.Values.{map_values, items_values}
use tokmesh_go.Memory.Store
use tokmesh_go.Memory.Samples.{alice, bob, s0}
use tokmesh_go.Storage.Entry.{Entry, new_create_entry, new_update_entry, new_delete_entry}
use tokmesh_go.Storage.Codec.{
  session_payload, frame_of, Bytes, encode_entry_frame, done, failed, wire_payload, WirePayload,
}
use tokmesh_go.Storage.Codec.Truncation.{AllLoggable}
use tokmesh_go.Storage.Samples.{toy, bob_updated, entry-IsLoggable, deletion-IsLoggable}
use tokmesh_go.Storage.Engine.Recorded.{recorded}
use tokmesh_go.Storage.Engine.Recovery.{Request, creating, updating, deleting}

-- two sessions, an update as the service makes it, a write that the log refuses, and a deletion
abbrev pub script : List Request
script =
    creating true 1000 alice
    ∷ creating true 1001 bob
    ∷ updating true 1500 (bob_updated) 1
    ∷ deleting false 1600 bob.id
    ∷ deleting true 1700 alice.id
    ∷ []

pub recorded-s0 : recorded s0 ≡ s0
unfolding Store.new recorded Cmap.new map_values items_values
recorded-s0 = refl

abbrev pub frame : Entry → Entry × Bytes
frame e = (e, elim (encode_entry_frame toy none e) [ done b ↦ b | failed x ↦ [] ])

abbrev pub frames : List (Entry × Bytes)
frames =
    frame (new_create_entry 1000 alice)
    ∷ frame (new_create_entry 1001 bob)
    ∷ frame (new_update_entry 1500 bob_updated)
    ∷ frame (new_delete_entry 1700 alice.id)
    ∷ []

abbrev payload_of : Entry → WirePayload
payload_of e = record {
  timestamp = e.timestamp;
  session_id = e.session_id;
  version = e.version;
  session = e.session;
  encrypted_session = [];
}

pub frames-AllLoggable : AllLoggable toy none frames
unfolding wire_payload session_payload encode_entry_frame frame_of AllLoggable
frames-AllLoggable = (
  entry-IsLoggable none (new_create_entry 1000 alice) (payload_of (new_create_entry 1000 alice))
      alice refl refl refl refl,
  refl,
  (
    entry-IsLoggable none (new_create_entry 1001 bob) (payload_of (new_create_entry 1001 bob)) bob
        refl refl refl refl,
    refl,
    (
      entry-IsLoggable none (new_update_entry 1500 bob_updated)
          (payload_of (new_update_entry 1500 bob_updated)) bob_updated refl refl refl refl,
      refl,
      (
        deletion-IsLoggable (new_delete_entry 1700 alice.id)
            (payload_of (new_delete_entry 1700 alice.id)) refl refl refl,
        refl,
        tt,
      ),
    ),
  ),
)
