-- ===== src/Rbac/Grants.antt =====
-- What the role tables grant (internal/domain/role.go, internal/rbac/permissions.go).
use guestbook.Prelude.{
  String, str_eq, eq_iff, ◌≡◌, refl, sym, ◌↔◌, ◌⊎◌, inl, inr, Bool, true, some, List, [], ◌∷◌,
  arith, if◌then◌else◌, all, Bool-cases, Option-cases, subst,
}
use guestbook.Rbac.Roles.{
  lookup, tenant_owner, event_manager, all_permissions, role_permissions, get_permissions_for_role,
  is_valid_event_member_role, has_permission, has_any_permission, has_all_permissions,
}

-- A property of every entry of a table holds of what a key finds.
lookup-all {ℓ} :
    {V : Type ℓ} (q : String → V → Bool) (m : List (String × V)) (k : String) (v : V)
    → all (λ e. q e.0 e.1) m ≡ true
    → lookup k m ≡ some v
    → q k v ≡ true
unfolding lookup all
lookup-all q [] k v h e = cc
lookup-all q ((j, w) ∷ m) k v h e = elim (Bool-cases (str_eq j k)) [
  | inl same ↦
      let found : q j v ≡ true = ground (arith, same) in
      subst (λ x. q x v ≡ true) ((eq_iff j k).0 same) found
  | inr other ↦ ground (arith, lookup-all q m k v, other)
]

-- A list of permissions passes as a whole exactly when each of its members passes.
pub has_all_permissions-has :
    (perms ps : List String)
    → has_all_permissions perms ps ≡ true
    → (p : String) → has_permission ps p ≡ true
    → has_permission perms p ≡ true
unfolding has_all_permissions has_permission
has_all_permissions-has perms [] h p e = cc
has_all_permissions-has perms (r ∷ ps) h p e = elim (Bool-cases (str_eq r p)) [
  | inl same ↦
      let found : has_permission perms r ≡ true = ground arith in
      subst (λ x. has_permission perms x ≡ true) ((eq_iff r p).0 same) found
  | inr other ↦ has_all_permissions-has perms ps (ground arith) p (ground (arith, other))
]

has_permission-has_all :
    (perms ps : List String)
    → ((p : String) → has_permission ps p ≡ true → has_permission perms p ≡ true)
    → has_all_permissions perms ps ≡ true
unfolding has_all_permissions has_permission
has_permission-has_all perms [] h = refl
has_permission-has_all perms (r ∷ ps) h =
    let here : has_permission perms r ≡ true = h r (ground (arith, eq_iff r r)) in
    ground (arith, here, has_permission-has_all perms ps (λ p e. h p (ground (arith, e))))

-- `hasAllPermissions` decides inclusion: it holds exactly when every permission of the second list
-- is in the first.
pub has_all_permissions_iff :
    (perms ps : List String)
    → (has_all_permissions perms ps ≡ true)
      ↔ ((p : String) → has_permission ps p ≡ true → has_permission perms p ≡ true)
has_all_permissions_iff perms ps =
    (has_all_permissions-has perms ps, has_permission-has_all perms ps)

has_any_permission-has :
    (perms ps : List String)
    → has_any_permission perms ps ≡ true
    → (p : String) × (has_permission ps p ≡ true) × (has_permission perms p ≡ true)
unfolding has_any_permission has_permission
has_any_permission-has perms [] h = cc
has_any_permission-has perms (r ∷ ps) h = elim (Bool-cases (has_permission perms r)) [
  | inl found ↦ (r, ground (arith, eq_iff r r), found)
  | inr missing ↦
      let (p, listed, found) = has_any_permission-has perms ps (ground (arith, missing)) in
      (p, ground (arith, listed), found)
]

has_permission-has_any :
    (perms ps : List String) (p : String)
    → has_permission ps p ≡ true
    → has_permission perms p ≡ true
    → has_any_permission perms ps ≡ true
unfolding has_any_permission has_permission
has_permission-has_any perms [] p h e = cc
has_permission-has_any perms (r ∷ ps) p h e = elim (Bool-cases (str_eq r p)) [
  | inl same ↦
      let found : has_permission perms r ≡ true =
        subst (λ x. has_permission perms x ≡ true) (sym ((eq_iff r p).0 same)) e in
      ground (arith, found)
  | inr other ↦ ground (arith, other, has_permission-has_any perms ps p)
]

-- `hasAnyPermission` decides overlap: it holds exactly when the two lists share a permission.
pub has_any_permission_iff :
    (perms ps : List String)
    → (has_any_permission perms ps ≡ true)
      ↔ ((p : String) × (has_permission ps p ≡ true) × (has_permission perms p ≡ true))
has_any_permission_iff perms ps = (
  has_any_permission-has perms ps,
  λ (p, listed, found). has_permission-has_any perms ps p listed found,
)

no_grant : (p : String) → ¬ (has_permission [] p ≡ true)
unfolding has_permission
no_grant p h = cc

-- A test that every row of the role table passes holds of the permissions of every role that
-- has any.
for_role :
    (q : String → List String → Bool) (role : String)
    → all (λ e. q e.0 e.1) role_permissions ≡ true
    → (get_permissions_for_role role ≡ []) ⊎ (q role (get_permissions_for_role role) ≡ true)
unfolding get_permissions_for_role
for_role q role h = elim (Option-cases (lookup role role_permissions)) [
  | inl unknown ↦ inl (rw (unknown, get_permissions_for_role))
  | inr (perms, e) ↦
      inr (rw (e, get_permissions_for_role) (lookup-all q role_permissions role perms h e))
]

-- Every permission that some role grants is one of the defined permissions.
pub granted-IsDefined :
    (role p : String)
    → has_permission (get_permissions_for_role role) p ≡ true
    → has_permission all_permissions p ≡ true
granted-IsDefined role p h =
    elim (for_role (λ _ perms. has_all_permissions all_permissions perms) role
      (unfold all role_permissions all_permissions has_all_permissions has_permission in refl)) [
        | inl nothing ↦ absurd (no_grant p (subst (λ l. has_permission l p ≡ true) nothing h))
        | inr within ↦
            has_all_permissions-has all_permissions (get_permissions_for_role role) within p h
      ]

-- A role that may be given for one event grants nothing that an event manager does not have.
pub event_member-within-event_manager :
    (role p : String)
    → is_valid_event_member_role role ≡ true
    → has_permission (get_permissions_for_role role) p ≡ true
    → has_permission (get_permissions_for_role event_manager) p ≡ true
event_member-within-event_manager role p valid h =
    elim (for_role
      (λ r perms.
        if is_valid_event_member_role r
        then has_all_permissions (get_permissions_for_role event_manager) perms
        else true)
      role
      (unfold all role_permissions is_valid_event_member_role get_permissions_for_role lookup
          has_all_permissions has_permission in
        refl)) [
          | inl nothing ↦ absurd (no_grant p (subst (λ l. has_permission l p ≡ true) nothing h))
          | inr within ↦
              has_all_permissions-has (get_permissions_for_role event_manager)
                (get_permissions_for_role role) (rw valid at within) p h
        ]

abbrev reserved : List String
reserved =
    "billing:read" ∷ "billing:write" ∷ "team:write" ∷ "team:invite" ∷ "settings:write"
    ∷ "audit:read" ∷ []

no_reserved : ¬ (has_any_permission [] reserved ≡ true)
unfolding has_any_permission has_permission
no_reserved h = cc

-- Billing, changes to the team, changes to the settings and the audit log are the owner's alone:
-- a role that grants one of these permissions is `tenant_owner`.
pub reserved-tenant_owner :
    (role : String)
    → has_any_permission (get_permissions_for_role role) reserved ≡ true
    → role ≡ tenant_owner
reserved-tenant_owner role h =
    elim (for_role
      (λ r perms. if has_any_permission perms reserved then str_eq r tenant_owner else true) role
      (unfold all role_permissions has_any_permission has_permission in refl)) [
        | inl nothing ↦
            absurd (no_reserved (subst (λ l. has_any_permission l reserved ≡ true) nothing h))
        | inr only ↦ (eq_iff role tenant_owner).0 (rw h at only)
      ]

-- The owner has every defined permission.
pub tenant_owner-has_all :
    (p : String)
    → has_permission all_permissions p ≡ true
    → has_permission (get_permissions_for_role tenant_owner) p ≡ true
tenant_owner-has_all =
    has_all_permissions-has (get_permissions_for_role tenant_owner) all_permissions (
      unfold get_permissions_for_role lookup role_permissions all_permissions has_all_permissions
        has_permission in
      refl)
