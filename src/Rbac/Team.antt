-- ===== src/Rbac/Team.antt =====
-- The changes of a membership: `UpdateUserRole` and `RemoveUser` of
-- internal/service/tenant_service.go over internal/repository/tenant_user_repository.go. The
-- service that the server builds has the permission service (`rbacSvc` is not nil).
use guestbook.Prelude.{
  ℕ, ◌==◌, String, str_eq, Bool, not, ◌&&◌, ◌∷◌, if◌then◌else◌, find_first, any, update_if,
}
use guestbook.Action.{
  ok, err, forbidden, invalid_role, membership_not_found, cannot_remove_owner, owner_role_immutable,
  Action, Env, ignore, or_raise, modify, raise_if, statement, ◌>>=◌, ◌>>◌,
}
use guestbook.Rbac.Roles.{tenant_owner, is_valid_role}
use guestbook.Rbac.Service.{Membership, Service, invalidate_user}

-- The row that the repository's statements address: `status = 'active'`.
abbrev pub is_active_member : ℕ → ℕ → Membership → Bool
is_active_member tenant user m =
    m.tenant_id == tenant && (m.user_id == user && str_eq m.status "active")

-- `TenantUserRepository.Get`
unfoldable pub get_membership : Bool → ℕ → ℕ → Action Service Membership
get_membership down tenant user =
    statement down
      (λ s. or_raise (find_first (is_active_member tenant user) s.members) membership_not_found s)

-- An UPDATE of the addressed rows; no row is an error.
unfoldable pub update_members : Bool → ℕ → ℕ → (Membership → Membership) → Action Service (Unit {0})
update_members down tenant user f = statement down (λ s.
    if any (is_active_member tenant user) s.members
    then (ok tt, record s { members = update_if (is_active_member tenant user) f s.members })
    else (err membership_not_found, s))

-- `TenantUserRepository.UpdateRole`
unfoldable pub update_role : Bool → ℕ → ℕ → String → Action Service (Unit {0})
unfolding update_members
update_role down tenant user role = update_members down tenant user (λ m. record m { role = role })

-- `TenantUserRepository.SoftDelete`
unfoldable pub soft_delete : Bool → ℕ → ℕ → Action Service (Unit {0})
unfolding update_members
soft_delete down tenant user =
    update_members down tenant user (λ m. record m { status = "inactive" })

-- `audit.Service.LogWithUser`
abbrev pub log_with_user : Bool → ℕ → ℕ → String → String → ℕ → Action Service (Unit {0})
log_with_user down user tenant action entity id = statement down (
    modify (λ s. record s {
      audit =
          record {
            user_id = user;
            tenant_id = tenant;
            action = action;
            entity_type = entity;
            entity_id = id;
          }
          ∷ s.audit;
    }))

-- `TenantService.UpdateUserRole`
unfoldable pub update_user_role : Env → ℕ → ℕ → ℕ → String → Action Service (Unit {0})
unfolding get_membership update_role invalidate_user
update_user_role v tenant changed_by target new_role = do
  raise_if (not (is_valid_role new_role)) invalid_role
  membership ← get_membership (v.down 0) tenant target
  raise_if (str_eq membership.role tenant_owner) owner_role_immutable
  raise_if (str_eq new_role tenant_owner) forbidden
  update_role (v.down 1) tenant target new_role
  modify (λ s. invalidate_user s tenant target)
  ignore (log_with_user (v.down 2) changed_by tenant "update" "membership" tenant)

-- `TenantService.RemoveUser`
unfoldable pub remove_user : Env → ℕ → ℕ → ℕ → Action Service (Unit {0})
unfolding get_membership soft_delete invalidate_user
remove_user v tenant removed_by target = do
  membership ← get_membership (v.down 0) tenant target
  raise_if (str_eq membership.role tenant_owner) cannot_remove_owner
  soft_delete (v.down 1) tenant target
  modify (λ s. invalidate_user s tenant target)
  ignore (log_with_user (v.down 2) removed_by tenant "remove" "membership" tenant)
