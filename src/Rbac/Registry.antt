-- ===== src/Rbac/Registry.antt =====
-- The resources of `RoleBasedAccessControl`: what `get_resource` returns after `register_resource` and
-- `update_resource_owner` of mcptoolkit/src/rbac.cpp.
use mcptoolkit.Prelude.{
  ◌≡◌, ◌&&◌, if◌then◌else◌, Bool-cases, Option-cases, inl, inr, Bytes, beq, beq_iff, arith,
}
use mcptoolkit.Prelude.Dict.{lookup, lookup-insert, has}
use mcptoolkit.Rbac.{
  ResourceAccess, AccessControl, register_resource, update_resource_owner, get_resource,
}

-- A registered resource is what is found under its id, and no other id is affected.
pub get_resource-register_resource :
    (resource : ResourceAccess) (rbac : AccessControl) (id : Bytes)
    → get_resource (register_resource resource rbac) id
      ≡ (if beq resource.resource_id id then resource else get_resource rbac id)
unfolding get_resource register_resource
get_resource-register_resource resource rbac id =
    ground (arith, lookup-insert resource.resource_id id resource rbac.resources)

-- A change of the owner is seen under the id where a resource is known there; nothing else of what
-- `get_resource` returns changes, for that resource or for another id.
pub get_resource-update_resource_owner :
    (rbac : AccessControl) (id new_owner j : Bytes)
    → get_resource (update_resource_owner id new_owner rbac) j ≡ (
        if beq id j && has id rbac.resources
        then record (get_resource rbac j) { owner_id = new_owner }
        else get_resource rbac j)
unfolding get_resource update_resource_owner
get_resource-update_resource_owner rbac id new_owner j =
    elim (Option-cases (lookup id rbac.resources)) [
      | inl missing ↦ ground arith
      | inr (resource, there) ↦ elim (Bool-cases (beq id j)) [
        | inl same ↦
            let e : id ≡ j = (beq_iff id j).0 same in
            ground
              (arith, lookup-insert id j (record resource { owner_id = new_owner }) rbac.resources)
        | inr other ↦
            ground
              (arith, lookup-insert id j (record resource { owner_id = new_owner }) rbac.resources)
      ]
    ]
