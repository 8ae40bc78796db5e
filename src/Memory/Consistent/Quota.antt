-- ===== src/Memory/Consistent/Quota.antt =====
-- The quota of sessions to a user.
use tokmesh_go.Base.{◌≤◌, [], arith, Option-cases, inl, inr}
use tokmesh_go.Domain.Str.{Str, str_dec}
use tokmesh_go.Domain.Session.{Session}
use tokmesh_go.Cmap
use tokmesh_go.Memory.UserIndex
use tokmesh_go.Memory.UserIndex.Laws as IndexLaws
use tokmesh_go.Memory.Store.{Store, Seeds, new, create, check_create}
use tokmesh_go.Memory.Store.Invariant.{IsConsistent}
use tokmesh_go.Memory.Change.{count_by_user_id, delete, unindexed}

-- No user has more sessions than the quota.
abbrev pub IsWithinQuota : Store → Type 0
IsWithinQuota s = (user : Str) → count_by_user_id s user ≤ s.max_sessions_per_user

-- On a consistent store in which no user has more sessions than the quota, `Create` leaves no user
-- with more.
pub create-IsWithinQuota :
    (s : Store) (x : Session) → IsConsistent s → IsWithinQuota s → IsWithinQuota (create s x).0
unfolding create check_create count_by_user_id
create-IsWithinQuota s x c q user = ground (
  arith,
  q user,
  q x.user_id,
  IndexLaws.count-add-le s.user_index c.users_valid x.user_id x.id user,
)

-- `Delete` keeps every user within the quota.
pub delete-IsWithinQuota :
    (s : Store) (id : Str) → IsConsistent s → IsWithinQuota s → IsWithinQuota (delete s id).0
unfolding delete unindexed count_by_user_id
delete-IsWithinQuota s id c q user = elim (Option-cases (Cmap.pop str_dec s.sessions id).1) [
  | inl e ↦ ground (arith, q user)
  | inr (x, e) ↦
      ground (arith, q user, IndexLaws.count-remove-le s.user_index c.users_valid x.user_id id user)
]

pub new-IsWithinQuota : (seeds : Seeds) → IsWithinQuota (new seeds [])
unfolding new count_by_user_id
new-IsWithinQuota seeds user = ground (
  arith,
  IndexLaws.count-set_at (UserIndex.new_user_index seeds.of_users) user,
  IndexLaws.set_at-new seeds.of_users user,
)
