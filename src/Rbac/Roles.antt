-- ===== src/Rbac/Roles.antt =====
-- The roles and permissions of internal/domain/role.go, internal/domain/event_member.go and
-- internal/rbac/permissions.go. A Go map from roles is an association list.
use guestbook.Prelude.{
  String, str_eq, Bool, true, false, not, ◌||◌, Option, none, some, List, [], ◌∷◌, if◌then◌else◌,
}

-- The first value under a key.
unfoldable pub lookup {ℓ} : {V : Type ℓ} → String → List (String × V) → Option V
lookup k [] = none
lookup k ((j, v) ∷ m) = if str_eq j k then some v else lookup k m

abbrev pub tenant_owner : String
tenant_owner = "tenant_owner"

abbrev pub event_manager : String
event_manager = "event_manager"

abbrev pub rsvp_officer : String
rsvp_officer = "rsvp_officer"

abbrev pub registration_officer : String
registration_officer = "registration_officer"

abbrev pub usher : String
usher = "usher"

abbrev pub gift_officer : String
gift_officer = "gift_officer"

abbrev pub viewer : String
viewer = "viewer"

unfoldable pub all_permissions : List String
all_permissions =
    "guest:read" ∷ "guest:write" ∷ "guest:delete" ∷ "guest:import" ∷ "guest:export" ∷ "gift:read"
    ∷ "gift:write" ∷ "gift:delete" ∷ "event:read" ∷ "event:write" ∷ "event:delete"
    ∷ "invitation:read" ∷ "invitation:write" ∷ "invitation:send" ∷ "rsvp:read" ∷ "rsvp:write"
    ∷ "checkin:read" ∷ "checkin:write" ∷ "seating:read" ∷ "seating:write" ∷ "report:read"
    ∷ "report:export" ∷ "communication:read" ∷ "communication:write" ∷ "communication:send"
    ∷ "billing:read" ∷ "billing:write" ∷ "team:read" ∷ "team:write" ∷ "team:invite"
    ∷ "event_team:read" ∷ "event_team:write" ∷ "settings:read" ∷ "settings:write" ∷ "audit:read"
    ∷ []

owner_permissions : List String
owner_permissions =
    "guest:read" ∷ "guest:write" ∷ "guest:delete" ∷ "guest:import" ∷ "guest:export" ∷ "gift:read"
    ∷ "gift:write" ∷ "gift:delete" ∷ "event:read" ∷ "event:write" ∷ "event:delete"
    ∷ "invitation:read" ∷ "invitation:write" ∷ "invitation:send" ∷ "rsvp:read" ∷ "rsvp:write"
    ∷ "checkin:read" ∷ "checkin:write" ∷ "seating:read" ∷ "seating:write" ∷ "report:read"
    ∷ "report:export" ∷ "communication:read" ∷ "communication:write" ∷ "communication:send"
    ∷ "billing:read" ∷ "billing:write" ∷ "team:read" ∷ "team:write" ∷ "team:invite"
    ∷ "event_team:read" ∷ "event_team:write" ∷ "settings:read" ∷ "settings:write" ∷ "audit:read"
    ∷ []

manager_permissions : List String
manager_permissions =
    "guest:read" ∷ "guest:write" ∷ "guest:delete" ∷ "guest:import" ∷ "guest:export" ∷ "gift:read"
    ∷ "gift:write" ∷ "gift:delete" ∷ "event:read" ∷ "event:write" ∷ "event:delete"
    ∷ "invitation:read" ∷ "invitation:write" ∷ "invitation:send" ∷ "rsvp:read" ∷ "rsvp:write"
    ∷ "checkin:read" ∷ "checkin:write" ∷ "seating:read" ∷ "seating:write" ∷ "report:read"
    ∷ "report:export" ∷ "communication:read" ∷ "communication:write" ∷ "communication:send"
    ∷ "team:read" ∷ "event_team:read" ∷ "event_team:write" ∷ "settings:read" ∷ []

unfoldable pub role_permissions : List (String × List String)
unfolding owner_permissions manager_permissions
role_permissions =
    (tenant_owner, owner_permissions)
    ∷ (event_manager, manager_permissions)
    ∷ (
      rsvp_officer,
      "guest:read" ∷ "guest:write" ∷ "event:read" ∷ "invitation:read" ∷ "invitation:write"
          ∷ "invitation:send" ∷ "rsvp:read" ∷ "rsvp:write" ∷ "communication:read"
          ∷ "communication:write" ∷ "communication:send" ∷ "report:read" ∷ "settings:read" ∷ [],
    )
    ∷ (
      registration_officer,
      "guest:read" ∷ "guest:write" ∷ "guest:import" ∷ "guest:export" ∷ "event:read" ∷ "checkin:read"
          ∷ "checkin:write" ∷ "report:read" ∷ "report:export" ∷ "settings:read" ∷ [],
    )
    ∷ (usher, "guest:read" ∷ "event:read" ∷ "checkin:read" ∷ "checkin:write" ∷ "seating:read" ∷ [])
    ∷ (
      gift_officer,
      "guest:read" ∷ "gift:read" ∷ "gift:write" ∷ "gift:delete" ∷ "event:read" ∷ "report:read" ∷ [],
    )
    ∷ (
      viewer,
      "guest:read" ∷ "event:read" ∷ "invitation:read" ∷ "rsvp:read" ∷ "checkin:read"
          ∷ "seating:read" ∷ "report:read" ∷ "communication:read" ∷ "team:read" ∷ "event_team:read"
          ∷ "settings:read" ∷ [],
    )
    ∷ []

unfoldable pub role_display_names : List (String × String)
role_display_names =
    (tenant_owner, "Tenant Owner")
    ∷ (event_manager, "Event Manager")
    ∷ (rsvp_officer, "RSVP Officer")
    ∷ (registration_officer, "Registration Officer")
    ∷ (usher, "Usher")
    ∷ (gift_officer, "Gift Officer")
    ∷ (viewer, "Viewer")
    ∷ []

-- An unknown role has no permissions.
unfoldable pub get_permissions_for_role : String → List String
get_permissions_for_role role = elim (lookup role role_permissions) [
  | none ↦ []
  | some perms ↦ perms
]

unfoldable pub is_valid_role : String → Bool
is_valid_role role = elim (lookup role role_permissions) [ none ↦ false | some _ ↦ true ]

unfoldable pub get_display_name : String → String
get_display_name role = elim (lookup role role_display_names) [ none ↦ role | some name ↦ name ]

-- The roles that may be given for one event.
unfoldable pub is_valid_event_member_role : String → Bool
is_valid_event_member_role role =
    str_eq role rsvp_officer
    || (str_eq role registration_officer
        || (str_eq role usher || (str_eq role gift_officer || str_eq role viewer)))

unfoldable pub has_permission : List String → String → Bool
has_permission [] permission = false
has_permission (p ∷ perms) permission =
    let rest = has_permission perms permission in if str_eq p permission then true else rest

unfoldable pub has_any_permission : List String → List String → Bool
has_any_permission perms [] = false
has_any_permission perms (p ∷ ps) =
    let rest = has_any_permission perms ps in if has_permission perms p then true else rest

unfoldable pub has_all_permissions : List String → List String → Bool
has_all_permissions perms [] = true
has_all_permissions perms (p ∷ ps) =
    let rest = has_all_permissions perms ps in if not (has_permission perms p) then false else rest
