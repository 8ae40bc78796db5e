-- ===== src/Storage/Entry.antt =====
-- The entries of the write-ahead log (src/internal/storage/wal/entry.go).
use tokmesh_go.Base.{ℕ, Option, none, some}
use tokmesh_go.Domain.Str.{Str}
use tokmesh_go.Domain.Session.{Session}

pub data OpType : Type 0 where
  unspecified create update delete : OpType

pub record Entry : Type 0 where
  pub op_type : OpType
  pub timestamp : ℕ
  pub session_id : Str
  pub version : ℕ
  pub session : Option Session

abbrev pub new_create_entry : ℕ → Session → Entry
new_create_entry now x = record {
  op_type = create;
  timestamp = now;
  session_id = x.id;
  version = x.version;
  session = some x;
}

abbrev pub new_update_entry : ℕ → Session → Entry
new_update_entry now x = record {
  op_type = update;
  timestamp = now;
  session_id = x.id;
  version = x.version;
  session = some x;
}

abbrev pub new_delete_entry : ℕ → Str → Entry
new_delete_entry now id = record {
  op_type = delete;
  timestamp = now;
  session_id = id;
  version = 0;
  session = none;
}
