-- ===== src/Domain/ApiKey/Permissions.antt =====
-- A role has the permissions of the roles below it.
use tokmesh_go.Base.{◌≡◌, refl, Bool, true, ◌&&◌, List, [], ◌∷◌, arith, subst, dec_lt, ℕ_discrete}
use tokmesh_go.Domain.Str.{str_dec}
use tokmesh_go.Domain.ApiKey.{
  Role, metrics, validator, issuer, admin, other, Permission, role_permissions, contains,
  has_permission, role_hierarchy, is_role_at_least,
}

all_in : List Permission → List Permission → Bool
all_in [] l = true
all_in (p ∷ ps) l = contains l p && all_in ps l

all_in-cons :
    (p : Permission) (ps l : List Permission)
    → all_in (p ∷ ps) l ≡ true
    → (contains l p ≡ true) × (all_in ps l ≡ true)
unfolding all_in
all_in-cons p ps l h = (ground (arith, h), ground (arith, h))

contains-all_in :
    (ps l : List Permission) (perm : Permission)
    → all_in ps l ≡ true
    → contains ps perm ≡ true
    → contains l perm ≡ true
unfolding contains
contains-all_in [] l perm h e = absurd (ground (arith, e))
contains-all_in (p ∷ ps) l perm h e =
    let (first, others) = all_in-cons p ps l h in
    elim (str_dec p perm) [
      | yes same ↦ subst (λ q. contains l q ≡ true) same first
      | no different ↦ contains-all_in ps l perm others (ground (arith, different, e))
    ]

-- A role that is at least as high as another one in `RoleHierarchy` has every permission of it.
pub has_permission-hierarchy :
    (low high : Role) (perm : Permission)
    → is_role_at_least high low ≡ true
    → has_permission low perm ≡ true
    → has_permission high perm ≡ true
unfolding has_permission is_role_at_least role_hierarchy role_permissions contains all_in str_dec
    ℕ_discrete dec_lt
has_permission-hierarchy metrics metrics perm h e = e
has_permission-hierarchy metrics validator perm h e =
    contains-all_in (role_permissions metrics) (role_permissions validator) perm refl e
has_permission-hierarchy metrics issuer perm h e =
    contains-all_in (role_permissions metrics) (role_permissions issuer) perm refl e
has_permission-hierarchy metrics admin perm h e =
    contains-all_in (role_permissions metrics) (role_permissions admin) perm refl e
has_permission-hierarchy metrics (other r) perm h e = absurd (ground (arith, h))
has_permission-hierarchy validator metrics perm h e = absurd (ground (arith, h))
has_permission-hierarchy validator validator perm h e = e
has_permission-hierarchy validator issuer perm h e =
    contains-all_in (role_permissions validator) (role_permissions issuer) perm refl e
has_permission-hierarchy validator admin perm h e =
    contains-all_in (role_permissions validator) (role_permissions admin) perm refl e
has_permission-hierarchy validator (other r) perm h e = absurd (ground (arith, h))
has_permission-hierarchy issuer metrics perm h e = absurd (ground (arith, h))
has_permission-hierarchy issuer validator perm h e = absurd (ground (arith, h))
has_permission-hierarchy issuer issuer perm h e = e
has_permission-hierarchy issuer admin perm h e =
    contains-all_in (role_permissions issuer) (role_permissions admin) perm refl e
has_permission-hierarchy issuer (other r) perm h e = absurd (ground (arith, h))
has_permission-hierarchy admin metrics perm h e = absurd (ground (arith, h))
has_permission-hierarchy admin validator perm h e = absurd (ground (arith, h))
has_permission-hierarchy admin issuer perm h e = absurd (ground (arith, h))
has_permission-hierarchy admin admin perm h e = e
has_permission-hierarchy admin (other r) perm h e = absurd (ground (arith, h))
has_permission-hierarchy (other r) high perm h e = absurd (ground (arith, e))
