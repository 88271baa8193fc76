-- ===== src/Rbac/Service.antt =====
-- The cached permission checks of internal/rbac/rbac.go over the memberships of
-- internal/repository/tenant_user_repository.go.
--
-- The cache's key joins two UUIDs in their fixed-width form, so it is the pair; the Go map is a
-- function of it. Each method of the cache runs under the mutex and is one step.
use guestbook.Prelude.{
  ℕ, ◌+◌, ltb, ◌==◌, String, str_eq, Bool, true, false, not, ◌&&◌, Option, none, some, List, [],
  ◌∷◌, if◌then◌else◌, find_first,
}
use guestbook.Action.{
  AuditLog, Error, forbidden, membership_not_found, Result, ok, err, Action, Env, pure, or_raise,
  modify, raise_if, statement, ◌>>=◌, ◌>>◌,
}
use guestbook.Rbac.Roles.{
  get_permissions_for_role, has_permission, has_any_permission, has_all_permissions,
}

pub record PermissionCacheEntry : Type 0 where
  pub role : String
  pub perms : List String
  pub expires_at : ℕ

-- A row of tenant_users.
pub record Membership : Type 0 where
  pub tenant_id : ℕ
  pub user_id : ℕ
  pub role : String
  pub status : String

abbrev pub CacheMap : Type 0
CacheMap = ℕ → ℕ → Option PermissionCacheEntry

pub record Service : Type 0 where
  pub cache : CacheMap
  pub ttl : ℕ
  pub members : List Membership
  pub audit : List AuditLog

-- `NewService`: five minutes, in seconds.
unfoldable pub new_service : List Membership → Service
new_service members = record { cache = λ _ _. none; ttl = 300; members = members; audit = [] }

-- The role that a membership grants now: `status <> 'inactive'`.
unfoldable pub current_role : List Membership → ℕ → ℕ → Option String
current_role members tenant user =
    elim (find_first
      (λ m. m.tenant_id == tenant && (m.user_id == user && not (str_eq m.status "inactive")))
      members) [ none ↦ none | some m ↦ some m.role ]

-- `TenantUserRepository.GetRole`
abbrev pub repo_get_role : Bool → ℕ → ℕ → Action Service String
repo_get_role down tenant user =
    statement down (λ s. or_raise (current_role s.members tenant user) membership_not_found s)

-- `getCachedPermissions`: an entry counts up to and including its expiry.
unfoldable pub get_cached_permissions : Service → ℕ → ℕ → ℕ → Option PermissionCacheEntry
get_cached_permissions s now tenant user = elim (s.cache tenant user) [
  | none ↦ none
  | some entry ↦ if ltb entry.expires_at now then none else some entry
]

unfoldable pub update : CacheMap → ℕ → ℕ → Option PermissionCacheEntry → CacheMap
update cache tenant user entry t u = if t == tenant && u == user then entry else cache t u

-- `setCachedPermissions`
unfoldable pub set_cached_permissions : Service → ℕ → ℕ → ℕ → String → List String → Service
set_cached_permissions s now tenant user role perms = record s {
  cache =
      update s.cache tenant user
        (some (record { role = role; perms = perms; expires_at = now + s.ttl }));
}

-- `invalidateCache`, which is all that `InvalidateUser` does.
unfoldable pub invalidate_user : Service → ℕ → ℕ → Service
invalidate_user s tenant user = record s { cache = update s.cache tenant user none }

-- The part that the five checks share: the cached entry, or the role read from the repository,
-- its permissions, and a fresh entry. The second reading of the clock dates the entry.
unfoldable pub load : Env → ℕ → ℕ → Action Service PermissionCacheEntry
load v tenant user s = elim (get_cached_permissions s (v.now 0) tenant user) [
  | some entry ↦ (ok entry, s)
  | none ↦
      (do
        role ← repo_get_role (v.down 0) tenant user
        let perms = get_permissions_for_role role
        modify (λ t. set_cached_permissions t (v.now 1) tenant user role perms)
        pure (record { role = role; perms = perms; expires_at = v.now 1 + s.ttl }))
        s
]

-- `errors.Is(err, domain.ErrMembershipNotFound)`
abbrev is_membership_not_found : Error → Bool
is_membership_not_found membership_not_found = true
is_membership_not_found _ = false

-- What each check makes of a failed `GetRole`.
abbrev pub if_no_membership : {A : Type 0} → Result A → Result A × Service → Result A × Service
if_no_membership r (ok a, s) = (ok a, s)
if_no_membership r (err e, s) = (if is_membership_not_found e then r else err e, s)

unfoldable pub check_permission : Env → ℕ → ℕ → String → Action Service Bool
unfolding load
check_permission v tenant user permission s =
    if_no_membership (ok false)
      ((do entry ← load v tenant user; pure (has_permission entry.perms permission)) s)

unfoldable pub get_role : Env → ℕ → ℕ → Action Service String
unfolding load
get_role v tenant user = do entry ← load v tenant user; pure entry.role

unfoldable pub get_permissions : Env → ℕ → ℕ → Action Service (List String)
unfolding load
get_permissions v tenant user s =
    if_no_membership (ok []) ((do entry ← load v tenant user; pure entry.perms) s)

unfoldable pub enforce_permission : Env → ℕ → ℕ → String → Action Service (Unit {0})
unfolding check_permission
enforce_permission v tenant user permission = do
  allowed ← check_permission v tenant user permission
  raise_if (not allowed) forbidden

-- An empty list of permissions is let through without a lookup.
unfoldable pub enforce_any_permission : Env → ℕ → ℕ → List String → Action Service (Unit {0})
unfolding load
enforce_any_permission v tenant user [] s = (ok tt, s)
enforce_any_permission v tenant user (p ∷ ps) s = if_no_membership (err forbidden) (
    (do
      entry ← load v tenant user
      raise_if (not (has_any_permission entry.perms (p ∷ ps))) forbidden)
      s)

unfoldable pub enforce_all_permissions : Env → ℕ → ℕ → List String → Action Service (Unit {0})
unfolding load
enforce_all_permissions v tenant user [] s = (ok tt, s)
enforce_all_permissions v tenant user (p ∷ ps) s = if_no_membership (err forbidden) (
    (do
      entry ← load v tenant user
      raise_if (not (has_all_permissions entry.perms (p ∷ ps))) forbidden)
      s)
