-- ===== src/Memory/Samples.antt =====
-- Sessions and stores for the tests.
use tokmesh_go.Base.{◌≡◌, ◌*◌, refl, false, some, [], ◌∷◌, length, ℕ_discrete, dec_lt}
use tokmesh_go.GoMap
use tokmesh_go.Cmap
use tokmesh_go.Cmap.Iter
use tokmesh_go.Domain.Str.{str_dec, bytes}
use tokmesh_go.Domain.Error.{ok}
use tokmesh_go.Domain.Session.{Session}
use tokmesh_go.Domain.Session
use tokmesh_go.Memory.UserIndex
use tokmesh_go.Memory.SessionSet
use tokmesh_go.Memory.SessionSet.{elem}
use tokmesh_go.Memory.Store
use tokmesh_go.Memory.Store.{Store, Seeds}
use tokmesh_go.Memory.Store.Invariant.{IsConsistent}
use tokmesh_go.Memory.Change
use tokmesh_go.Memory.Consistent.Create

abbrev pub seeds : Seeds
seeds = record { of_sessions = λ s. length s; of_tokens = λ s. 3; of_users = λ s. length s * 5 }

abbrev pub alice : Session
alice = record {
  id = bytes "tmss-1";
  user_id = bytes "alice";
  token_hash = bytes "tmth_a";
  ip_address = bytes "10.0.0.1";
  user_agent = [];
  last_access_ip = [];
  last_access_ua = [];
  device_id = [];
  created_by = [];
  created_at = 1000;
  expires_at = 5000;
  last_active = 1000;
  data_map = some ((bytes "k", bytes "v") ∷ []);
  version = 1;
  shard_id = 0;
  ttl = 4000;
  is_deleted = false;
}

abbrev pub bob : Session
bob = record alice { id = bytes "tmss-2"; user_id = bytes "bob"; token_hash = bytes "tmth_b" }

unfoldable pub program : Unit {0}
unfolding Cmap.new Cmap.get Cmap.set Cmap.delete Cmap.pop Cmap.has Cmap.get_or_set Cmap.get_shard
    Cmap.put_shard GoMap.get GoMap.set GoMap.delete ℕ_discrete str_dec dec_lt Session.validate
    Session.validate_data Session.validate_entries Session.data_violates Session.is_expired
    Session.clone Session.incr_version UserIndex.new_user_index UserIndex.add UserIndex.remove
    UserIndex.get UserIndex.count UserIndex.clear UserIndex.set_at SessionSet.add SessionSet.remove
    SessionSet.items SessionSet.contains elem Store.new Store.create Store.get Store.live
    Store.get_by_token Store.touch Store.list_by_user_id Store.drop_token Store.put_token
    Change.retoken Change.replace Change.update Change.update_session Change.unindexed Change.delete
    Change.delete_by_token Change.pop_one Change.pop_ids Change.delete_by_user_id
    Change.cleanup_expired Change.delete_ids Change.collect_expired Iter.range Iter.count
program = tt

abbrev pub s0 : Store
s0 = Store.new seeds []

abbrev pub s1 : Store
s1 = (Store.create s0 alice).0

abbrev pub s2 : Store
s2 = (Store.create s1 bob).0

pub s0-IsConsistent : IsConsistent s0
s0-IsConsistent = Create.new-IsConsistent seeds

pub s1-IsConsistent : IsConsistent s1
s1-IsConsistent = Create.create-IsConsistent s0 alice s0-IsConsistent

pub s2-IsConsistent : IsConsistent s2
s2-IsConsistent = Create.create-IsConsistent s1 bob s1-IsConsistent

pub created : (Store.create s0 alice).1 ≡ ok tt
unfolding program
created = refl

pub bob_there : Cmap.get str_dec s2.sessions bob.id ≡ some bob
unfolding program
bob_there = refl
