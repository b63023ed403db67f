-- ===== src/Rbac/Decisions.antt =====
-- The decisions of `check_permission`, `can_access_resource` and `can_access_resource_by_id` of
-- mcptoolkit/src/rbac.cpp, against a statement of who may do what.
use mcptoolkit.Prelude.{
  IsElement, IsElement-here, IsElement-there, ◌≤◌, ◌≡◌, refl, ◌↔◌, ◌⊎◌, inl, inr, true, ◌&&◌, none,
  some, List, [], ◌∷◌, ◌++◌, leb, Bool-cases, Bytes, codes, beq, beq_iff, contains, arith,
}
use mcptoolkit.Prelude.Dict.{lookup}
use mcptoolkit.Auth.{member}
use mcptoolkit.Rbac.{
  Role, guest, user, admin, rank, Permission, ResourceAccess, User, AccessControl,
  has_sufficient_role, owns_resource, any_member, in_shared_group, policy_grants, check_permission,
  can_access_resource, can_access_resource_by_id, deny,
}

-- Some permission for the action asks for no higher role than the user's.
abbrev pub IsGranted : List Permission → User → Bytes → Type 0
IsGranted policy who action =
    (perm : Permission) × IsElement perm policy
    × (perm.action ≡ action)
    × (rank perm.required_role ≤ rank who.role)

-- The user and the resource have a group in common.
abbrev pub SharesGroup : List Bytes → List Bytes → Type 0
SharesGroup groups others = (g : Bytes) × IsElement g groups × IsElement g others

grants_sound :
    (policy : List Permission) (who : User) (action : Bytes)
    → policy_grants policy who action ≡ true
    → IsGranted policy who action
unfolding policy_grants has_sufficient_role
grants_sound [] who action h = cc
grants_sound (perm ∷ policy) who action h =
    elim (Bool-cases (beq perm.action action && leb (rank perm.required_role) (rank who.role))) [
      | inl here ↦ (
        perm,
        IsElement-here perm policy,
        ground (arith, beq_iff perm.action action),
        ground arith,
      )
      | inr later ↦
          let (p, there, same, enough) = grants_sound policy who action (ground arith) in
          (p, IsElement-there perm there, same, enough)
    ]

grants_complete :
    (before after : List Permission) (perm : Permission) (who : User)
    → rank perm.required_role ≤ rank who.role
    → policy_grants (before ++ (perm ∷ after)) who perm.action ≡ true
unfolding policy_grants has_sufficient_role
grants_complete [] after perm who h = ground (arith, beq_iff perm.action perm.action)
grants_complete (p ∷ before) after perm who h =
    ground (arith, grants_complete before after perm who h)

policy_grants_iff :
    (policy : List Permission) (who : User) (action : Bytes)
    → (policy_grants policy who action ≡ true) ↔ IsGranted policy who action
policy_grants_iff policy who action = (
  grants_sound policy who action,
  λ (perm, (before, after, e), same, enough).
      rw (e, ← same) (grants_complete before after perm who enough),
)

member_sound : (x : Bytes) (xs : List Bytes) → member x xs ≡ true → IsElement x xs
unfolding member
member_sound x [] h = cc
member_sound x (y ∷ xs) h = elim (Bool-cases (beq y x)) [
  | inl here ↦ rw ((beq_iff y x).0 here) (IsElement-here x xs)
  | inr later ↦ IsElement-there y (member_sound x xs (ground arith))
]

member_complete : (x : Bytes) (before after : List Bytes) → member x (before ++ (x ∷ after)) ≡ true
unfolding member
member_complete x [] after = ground (arith, beq_iff x x)
member_complete x (y ∷ before) after = ground (arith, member_complete x before after)

any_member_sound :
    (groups others : List Bytes) → any_member groups others ≡ true → SharesGroup groups others
unfolding any_member
any_member_sound [] others h = cc
any_member_sound (g ∷ groups) others h = elim (Bool-cases (member g others)) [
  | inl here ↦ (g, IsElement-here g groups, member_sound g others here)
  | inr later ↦
      let (k, there, too) = any_member_sound groups others (ground arith) in
      (k, IsElement-there g there, too)
]

any_member_complete :
    (g : Bytes) (before after others : List Bytes)
    → member g others ≡ true
    → any_member (before ++ (g ∷ after)) others ≡ true
unfolding any_member
any_member_complete g [] after others h = ground arith
any_member_complete g (k ∷ before) after others h =
    ground (arith, any_member_complete g before after others h)

any_member_iff :
    (groups others : List Bytes) → (any_member groups others ≡ true) ↔ SharesGroup groups others
any_member_iff groups others = (
  any_member_sound groups others,
  λ (g, (before, after, e), (front, back, q)).
      rw e (any_member_complete g before after others (rw q (member_complete g front back))),
)

-- What lets a user reach a resource, besides a permission for the action.
abbrev pub CanReach : User → ResourceAccess → Bytes → Type 0
CanReach who resource action =
    ((who.role ≡ admin) × (contains (codes "any") action ≡ true))
    ⊎ (resource.is_public ≡ true)
    ⊎ (resource.owner_id ≡ who.user_id)
    ⊎ SharesGroup resource.group_ids who.group_ids

abbrev pub MayAccess : AccessControl → User → ResourceAccess → Bytes → Type 0
MayAccess rbac who resource action =
    (who.authenticated ≡ true) × IsGranted rbac.policy who action × CanReach who resource action

admin_iff : (r : Role) → (leb (rank admin) (rank r) ≡ true) ↔ (r ≡ admin)
admin_iff guest = (λ h. cc, λ h. cc)
admin_iff user = (λ h. cc, λ h. cc)
admin_iff admin = (λ h. refl, λ h. refl)

-- `check_permission` allows exactly an authenticated user who has a high enough role for some
-- permission of the policy for the action.
pub check_permission_iff :
    (rbac : AccessControl) (who : User) (action : Bytes)
    → (check_permission rbac who action ≡ true)
      ↔ ((who.authenticated ≡ true) × IsGranted rbac.policy who action)
unfolding check_permission
check_permission_iff rbac who action =
    let (to, from) = policy_grants_iff rbac.policy who action in
    (
      λ h. (ground arith, to (ground arith)),
      λ (auth, granted). let g = from granted in ground arith,
    )

reach_allowed :
    (rbac : AccessControl) (who : User) (resource : ResourceAccess) (action : Bytes)
    → who.authenticated ≡ true
    → policy_grants rbac.policy who action ≡ true
    → ((can_access_resource rbac who resource action).allowed ≡ true) ↔ CanReach who resource action
unfolding can_access_resource owns_resource in_shared_group
reach_allowed rbac who resource action auth granted =
    let (role_to, role_from) = admin_iff who.role in
    let (own_to, own_from) = beq_iff resource.owner_id who.user_id in
    let (group_to, group_from) = any_member_iff resource.group_ids who.group_ids in
    (
      λ h. elim (Bool-cases (leb (rank admin) (rank who.role) && contains (codes "any") action)) [
        | inl all ↦ inl (role_to (ground arith), ground arith)
        | inr not_all ↦ elim (Bool-cases resource.is_public) [
          | inl public ↦ inr (inl public)
          | inr not_public ↦ elim (Bool-cases (beq resource.owner_id who.user_id)) [
            | inl owner ↦ inr (inr (inl (own_to owner)))
            | inr not_owner ↦ inr (inr (inr (group_to (ground arith))))
          ]
        ]
      ],
      λ r. elim r [
        | inl (a, c) ↦ let b = role_from a in ground arith
        | inr (inl p) ↦ ground arith
        | inr (inr (inl o)) ↦ let b = own_from o in ground arith
        | inr (inr (inr g)) ↦ let b = group_from g in ground arith
      ],
    )

-- `can_access_resource` allows exactly an authenticated user with a permission for the action who is
-- an administrator doing an action named with "any", or for whom the resource is public, owned, or of
-- a group that the user is in.
pub can_access_resource_iff :
    (rbac : AccessControl) (who : User) (resource : ResourceAccess) (action : Bytes)
    → ((can_access_resource rbac who resource action).allowed ≡ true)
      ↔ MayAccess rbac who resource action
unfolding can_access_resource
can_access_resource_iff rbac who resource action =
    let (to, from) = policy_grants_iff rbac.policy who action in
    (
      λ h.
          let auth : who.authenticated ≡ true = ground arith in
          let granted : policy_grants rbac.policy who action ≡ true = ground arith in
          (auth, to granted, (reach_allowed rbac who resource action auth granted).0 h),
      λ (auth, granted, reach).
          (reach_allowed rbac who resource action auth (from granted)).1 reach,
    )

-- A decision by id is the decision on the resource that is registered under the id, and a refusal
-- where none is.
pub can_access_resource_by_id_agrees :
    (rbac : AccessControl) (who : User) (resource_id action : Bytes)
    → can_access_resource_by_id rbac who resource_id action
      ≡ elim (lookup resource_id rbac.resources) [
        | none ↦ deny (codes "Resource not found")
        | some resource ↦ can_access_resource rbac who resource action
      ]
unfolding can_access_resource_by_id can_access_resource
can_access_resource_by_id_agrees rbac who resource_id action = refl
