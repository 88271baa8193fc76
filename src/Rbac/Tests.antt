-- ===== src/Rbac/Tests.antt =====
-- Permission checks of a small team.
use guestbook.Prelude.{
  String, ◌≡◌, ◌↔◌, refl, true, List, [], ◌∷◌, find_first, leb, if◌then◌else◌, ◌+◌,
}
use guestbook.Action.{ok}
use guestbook.Samples.{quiet}
use guestbook.Rbac.Roles.{
  tenant_owner, event_manager, all_permissions, get_permissions_for_role, has_permission,
  has_any_permission, has_all_permissions, is_valid_event_member_role, lookup, role_permissions,
}
use guestbook.Rbac.Service.{
  Membership, new_service, set_cached_permissions, invalidate_user, check_permission,
}
use guestbook.Rbac.Cache.{permissions_of}
use guestbook.Rbac.Changes.{Request, serve_all, check_permission_after_requests}
use guestbook.Rbac.Owner.{IsOwner, serve_all-IsOwner, check_permission-stored_late}
use guestbook.Rbac.Grants.{
  has_all_permissions_iff, has_any_permission_iff, granted-IsDefined,
  event_member-within-event_manager, reserved-tenant_owner, tenant_owner-has_all,
}

abbrev team : List Membership
team =
    record { tenant_id = 7; user_id = 9; role = "tenant_owner"; status = "active" }
    ∷ record { tenant_id = 7; user_id = 10; role = "event_manager"; status = "active" }
    ∷ []

-- The manager is looked up, made a viewer and looked up again.
abbrev requests : List Request
requests =
    Request.check quiet 7 10 "event:write"
    ∷ Request.change_role quiet 7 9 10 "viewer"
    ∷ Request.remove quiet 7 9 10
    ∷ []

check_permission_after_requests_example :
    (check_permission quiet 7 10 "event:write" (serve_all requests (new_service team))).0
    ≡ ok (
        has_permission
          (permissions_of (serve_all requests (new_service team)).members 7 10)
          "event:write")
check_permission_after_requests_example =
    check_permission_after_requests team requests quiet 7 10 "event:write" refl

serve_all-IsOwner_example : IsOwner 7 9 (serve_all requests (new_service team))
serve_all-IsOwner_example = serve_all-IsOwner 7 9 requests (new_service team) (
  record { tenant_id = 7; user_id = 9; role = "tenant_owner"; status = "active" },
  unfold new_service find_first in refl,
  refl,
)

check_permission-stored_late_example :
    (check_permission quiet 7 10 "event:write" (
      set_cached_permissions
        (invalidate_user (new_service team) 7 10)
        90
        7
        10
        "tenant_owner"
        (get_permissions_for_role "tenant_owner"))).0
    ≡ ok (
        has_permission
          (if leb 100 (90 + (new_service team).ttl)
            then get_permissions_for_role "tenant_owner"
            else permissions_of (new_service team).members 7 10)
          "event:write")
check_permission-stored_late_example =
    check_permission-stored_late quiet 90 7 10 "tenant_owner" "event:write" (new_service team) refl

has_all_permissions_iff_example :
    (has_all_permissions ("a" ∷ "b" ∷ []) ("b" ∷ []) ≡ true)
    ↔ ((p : String) → has_permission ("b" ∷ []) p ≡ true → has_permission ("a" ∷ "b" ∷ []) p ≡ true)
has_all_permissions_iff_example = has_all_permissions_iff ("a" ∷ "b" ∷ []) ("b" ∷ [])

has_any_permission_iff_example : (has_any_permission ("a" ∷ "b" ∷ []) ("b" ∷ "c" ∷ []) ≡ true) ↔ (
    (p : String) × (has_permission ("b" ∷ "c" ∷ []) p ≡ true)
    × (has_permission ("a" ∷ "b" ∷ []) p ≡ true))
has_any_permission_iff_example = has_any_permission_iff ("a" ∷ "b" ∷ []) ("b" ∷ "c" ∷ [])

granted-IsDefined_example : has_permission all_permissions "event:write" ≡ true
granted-IsDefined_example =
    granted-IsDefined "event_manager" "event:write"
      (unfold get_permissions_for_role lookup role_permissions has_permission in refl)

event_member-within-event_manager_example :
    has_permission (get_permissions_for_role event_manager) "checkin:write" ≡ true
event_member-within-event_manager_example =
    event_member-within-event_manager "registration_officer" "checkin:write"
      (unfold is_valid_event_member_role in refl)
      (unfold get_permissions_for_role lookup role_permissions has_permission in refl)

reserved-tenant_owner_example : "tenant_owner" ≡ tenant_owner
reserved-tenant_owner_example = reserved-tenant_owner "tenant_owner" (
    unfold get_permissions_for_role lookup role_permissions has_any_permission has_permission in
    refl)

tenant_owner-has_all_example :
    has_permission (get_permissions_for_role tenant_owner) "event:write" ≡ true
tenant_owner-has_all_example =
    tenant_owner-has_all "event:write" (unfold all_permissions has_permission in refl)
