-- ===== src/Rbac.antt =====
-- `RoleBasedAccessControl`: mcptoolkit/include/rbac.h and mcptoolkit/src/rbac.cpp. The mutex is not
-- modelled: each method is one step.
pub mod Decisions
pub mod Registry
pub mod History
use mcptoolkit.Prelude.{
  ℕ, Bool, true, false, ◌&&◌, not, Option, none, some, List, [], ◌∷◌, ◌++◌, leb, if◌then◌else◌,
  Bytes, codes, beq, contains,
}
use mcptoolkit.Prelude.Dict.{Dict, lookup, insert}
use mcptoolkit.Auth.{member}

pub data Role : Type 0 where
  guest user admin : Role

-- The value of the enumerator.
abbrev pub rank : Role → ℕ
rank guest = 0
rank user = 1
rank admin = 2

pub record Permission : Type 0 where
  pub required_role : Role
  pub action : Bytes

pub record ResourceAccess : Type 0 where
  pub resource_id : Bytes
  pub owner_id : Bytes
  pub group_ids : List Bytes
  pub is_public : Bool

pub record User : Type 0 where
  pub user_id : Bytes
  pub role : Role
  pub group_ids : List Bytes
  pub authenticated : Bool

pub record AuthzResult : Type 0 where
  pub allowed : Bool
  pub reason : Bytes

pub record AccessControl : Type 0 where
  pub policy : List Permission
  pub resources : Dict ResourceAccess

-- `RoleBasedAccessControl()`
abbrev pub new_control : AccessControl
new_control = record { policy = []; resources = [] }

unfoldable pub add_permission : Permission → AccessControl → AccessControl
add_permission perm rbac = record rbac { policy = rbac.policy ++ (perm ∷ []) }

unfoldable pub has_sufficient_role : User → Permission → Bool
has_sufficient_role who perm = leb (rank perm.required_role) (rank who.role)

unfoldable pub owns_resource : User → ResourceAccess → Bool
owns_resource who resource = beq resource.owner_id who.user_id

-- The loop of `in_shared_group` over the resource's groups.
unfoldable pub any_member : List Bytes → List Bytes → Bool
any_member [] groups = false
any_member (g ∷ gs) groups = if member g groups then true else any_member gs groups

unfoldable pub in_shared_group : User → ResourceAccess → Bool
unfolding any_member
in_shared_group who resource = any_member resource.group_ids who.group_ids

-- The loop over the policy that three methods have in common: `perm.action == action &&
-- has_sufficient_role(user, perm)` for some permission.
unfoldable pub policy_grants : List Permission → User → Bytes → Bool
unfolding has_sufficient_role
policy_grants [] who action = false
policy_grants (perm ∷ policy) who action =
    if beq perm.action action && has_sufficient_role who perm
    then true
    else policy_grants policy who action

unfoldable pub check_permission : AccessControl → User → Bytes → Bool
check_permission rbac who action =
    if not who.authenticated then false else policy_grants rbac.policy who action

abbrev pub deny : Bytes → AuthzResult
deny reason = record { allowed = false; reason = reason }

abbrev pub grant : Bytes → AuthzResult
grant reason = record { allowed = true; reason = reason }

unfoldable pub can_access_resource : AccessControl → User → ResourceAccess → Bytes → AuthzResult
unfolding owns_resource in_shared_group
can_access_resource rbac who resource action =
    if not who.authenticated
    then deny (codes "Not authenticated")
    else if not (policy_grants rbac.policy who action)
    then deny (codes "Insufficient permissions for action")
    else if leb (rank admin) (rank who.role) && contains (codes "any") action
    then grant (codes "Admin access to resource granted")
    else if resource.is_public
    then grant (codes "Public resource access granted")
    else if owns_resource who resource
    then grant (codes "Resource owner access granted")
    else if in_shared_group who resource
    then grant (codes "Group access granted")
    else deny (codes "No access to this resource")

-- The source repeats the checks here, behind the lookup.
unfoldable pub can_access_resource_by_id : AccessControl → User → Bytes → Bytes → AuthzResult
unfolding owns_resource in_shared_group
can_access_resource_by_id rbac who resource_id action = elim (lookup resource_id rbac.resources) [
  | none ↦ deny (codes "Resource not found")
  | some resource ↦
      if not who.authenticated
      then deny (codes "Not authenticated")
      else if not (policy_grants rbac.policy who action)
      then deny (codes "Insufficient permissions for action")
      else if leb (rank admin) (rank who.role) && contains (codes "any") action
      then grant (codes "Admin access to resource granted")
      else if resource.is_public
      then grant (codes "Public resource access granted")
      else if owns_resource who resource
      then grant (codes "Resource owner access granted")
      else if in_shared_group who resource
      then grant (codes "Group access granted")
      else deny (codes "No access to this resource")
]

unfoldable pub register_resource : ResourceAccess → AccessControl → AccessControl
register_resource resource rbac = record rbac {
  resources = insert resource.resource_id resource rbac.resources;
}

-- An owner is changed where the resource is known, and nothing is added.
unfoldable pub update_resource_owner : Bytes → Bytes → AccessControl → AccessControl
update_resource_owner resource_id new_owner_id rbac = elim (lookup resource_id rbac.resources) [
  | none ↦ rbac
  | some resource ↦ record rbac {
    resources = insert resource_id (record resource { owner_id = new_owner_id }) rbac.resources;
  }
]

unfoldable pub get_resource : AccessControl → Bytes → ResourceAccess
get_resource rbac resource_id = elim (lookup resource_id rbac.resources) [
  | some resource ↦ resource
  | none ↦ record { resource_id = []; owner_id = []; group_ids = []; is_public = false }
]
