-- ===== src/Domain/Session/Tests.antt =====
-- Instances of the theorems on sessions.
use tokmesh_go.Base.{false, none, []}
use tokmesh_go.Domain.Str.{bytes}
use tokmesh_go.Domain.Session.{Session}

abbrev guest : Session
guest = record {
  id = bytes "tmss-0";
  user_id = bytes "guest";
  token_hash = [];
  ip_address = bytes "10.0.0.1";
  user_agent = [];
  last_access_ip = [];
  last_access_ua = [];
  device_id = [];
  created_by = [];
  created_at = 1;
  expires_at = 0;
  last_active = 1;
  data_map = none;
  version = 1;
  shard_id = 0;
  ttl = 0;
  is_deleted = false;
}
