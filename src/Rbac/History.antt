-- ===== src/Rbac/History.antt =====
-- The access control of mcptoolkit/src/rbac.cpp against the history of what was done to it: decisions
-- depend on the permissions that were added and on the last word on the resource asked for.
use mathlib.Core.Path.{subst}
use mcptoolkit.Prelude.{
  ◌≡◌, refl, sym, ◌∙◌, ap, ◌↔◌, inl, inr, true, Option, none, some, List, [], ◌∷◌, ◌++◌,
  append_assoc, append-nil, if◌then◌else◌, Option-cases, Bytes, beq, beq_iff, arith,
}
use mcptoolkit.Prelude.Dict.{lookup, lookup-insert}
use mcptoolkit.Rbac.{
  Permission, ResourceAccess, User, AccessControl, new_control, add_permission,
  can_access_resource_by_id, register_resource, update_resource_owner,
}
use mcptoolkit.Rbac.Decisions.{
  IsGranted, CanReach, can_access_resource_iff, can_access_resource_by_id_agrees,
}

-- The methods that change an access control.
pub data Change : Type 0 where
  adds : Permission → Change
  registers : ResourceAccess → Change
  gives : Bytes → Bytes → Change

abbrev pub change : Change → AccessControl → AccessControl
change (adds perm) rbac = add_permission perm rbac
change (registers resource) rbac = register_resource resource rbac
change (gives resource_id new_owner_id) rbac = update_resource_owner resource_id new_owner_id rbac

abbrev pub change_all : List Change → AccessControl → AccessControl
change_all [] rbac = rbac
change_all (c ∷ cs) rbac = change_all cs (change c rbac)

abbrev pub added : List Change → List Permission
added [] = []
added (adds perm ∷ cs) = perm ∷ added cs
added (_ ∷ cs) = added cs

abbrev with_owner : Bytes → Option ResourceAccess → Option ResourceAccess
with_owner new_owner_id none = none
with_owner new_owner_id (some resource) = some (record resource { owner_id = new_owner_id })

-- What one change says of the resource with the id.
abbrev pub say : Bytes → Change → Option ResourceAccess → Option ResourceAccess
say id (adds perm) known = known
say id (registers resource) known = if beq resource.resource_id id then some resource else known
say id (gives resource_id new_owner_id) known =
    if beq resource_id id then with_owner new_owner_id known else known

-- The last word on the resource with the id.
abbrev pub last_word : Bytes → List Change → Option ResourceAccess → Option ResourceAccess
last_word id [] known = known
last_word id (c ∷ cs) known = last_word id cs (say id c known)

change_all-policy :
    (cs : List Change) (rbac : AccessControl)
    → (change_all cs rbac).policy ≡ rbac.policy ++ added cs
unfolding add_permission register_resource update_resource_owner
change_all-policy [] rbac = simp append-nil
change_all-policy (adds perm ∷ cs) rbac =
    change_all-policy cs (add_permission perm rbac)
    ∙ append_assoc rbac.policy (perm ∷ []) (added cs)
change_all-policy (registers resource ∷ cs) rbac =
    change_all-policy cs (register_resource resource rbac)
change_all-policy (gives id owner ∷ cs) rbac =
    let rest = change_all-policy cs (update_resource_owner id owner rbac) in
    elim (Option-cases (lookup id rbac.resources)) [
      | inl missing ↦ ground arith
      | inr (resource, there) ↦ ground arith
    ]

change-resources :
    (c : Change) (rbac : AccessControl) (id : Bytes)
    → lookup id (change c rbac).resources ≡ say id c (lookup id rbac.resources)
unfolding add_permission register_resource update_resource_owner
change-resources (adds perm) rbac id = refl
change-resources (registers resource) rbac id =
    lookup-insert resource.resource_id id resource rbac.resources
change-resources (gives j owner) rbac id = elim (Option-cases (lookup j rbac.resources)) [
  | inl missing ↦ ground (arith, beq_iff j id)
  | inr (resource, there) ↦ ground (
    arith,
    beq_iff j id,
    lookup-insert j id (record resource { owner_id = owner }) rbac.resources,
  )
]

change_all-resources :
    (cs : List Change) (rbac : AccessControl) (id : Bytes)
    → lookup id (change_all cs rbac).resources ≡ last_word id cs (lookup id rbac.resources)
change_all-resources [] rbac id = refl
change_all-resources (c ∷ cs) rbac id =
    change_all-resources cs (change c rbac) id ∙ ap (last_word id cs) (change-resources c rbac id)

-- After any changes to a new access control, a user is let to a resource by its id exactly if the user
-- is authenticated, a permission that was added allows the action to the user's role, and the last word
-- on the id is a resource that the user can reach (as an administrator, or because it is public, owned
-- or shared): nothing is open by default.
pub change_all-decides :
    (cs : List Change) (who : User) (resource_id action : Bytes)
    → ((can_access_resource_by_id (change_all cs new_control) who resource_id action).allowed
        ≡ true)
      ↔ ((who.authenticated ≡ true)
          × IsGranted (added cs) who action
          × (resource : ResourceAccess) × (last_word resource_id cs none ≡ some resource)
          × CanReach who resource action)
unfolding lookup
change_all-decides cs who resource_id action =
    let rbac = change_all cs new_control in
    let policy : rbac.policy ≡ added cs = change_all-policy cs new_control in
    let known : lookup resource_id rbac.resources ≡ last_word resource_id cs none =
      change_all-resources cs new_control resource_id in
    let agrees = can_access_resource_by_id_agrees rbac who resource_id action in
    elim (Option-cases (lookup resource_id rbac.resources)) [
      | inl missing ↦ (
        λ h. absurd (ground arith),
        λ (auth, granted, resource, last, reach). absurd (ground arith),
      )
      | inr (resource, there) ↦
          let (to, from) = can_access_resource_iff rbac who resource action in
          (
            λ h.
                let (auth, granted, reach) = to (ground arith) in
                (
                  auth,
                  subst (λ p. IsGranted p who action) policy granted,
                  resource,
                  sym known ∙ there,
                  reach,
                ),
            λ (auth, granted, other, last, reach).
                let same : other ≡ resource = ground arith in
                let allowed = from (
                  auth,
                  subst (λ p. IsGranted p who action) (sym policy) granted,
                  subst (λ r. CanReach who r action) same reach,
                ) in
                ground arith,
          )
    ]
