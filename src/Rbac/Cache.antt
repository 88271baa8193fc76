-- ===== src/Rbac/Cache.antt =====
-- The cached checks answer what the memberships say (internal/rbac/rbac.go): the specification
-- is one look at the member's role, and the cache is invisible as long as its entries are true.
use guestbook.Prelude.{
  ℕ, String, ◌≡◌, refl, sym, subst, ◌⊎◌, inl, inr, Bool, false, Option, none, some, List, [], arith,
  if◌then◌else◌, Bool-cases, Option-cases,
}
use guestbook.Action.{Result, ok, err, forbidden, Env}
use guestbook.Rbac.Roles.{get_permissions_for_role, has_permission}
use guestbook.Rbac.Service.{
  PermissionCacheEntry, Membership, Service, current_role, get_cached_permissions, update,
  set_cached_permissions, load, check_permission,
}

-- The permissions that a member has: none for who is no member.
unfoldable pub permissions_of : List Membership → ℕ → ℕ → List String
permissions_of members tenant user = elim (current_role members tenant user) [
  | none ↦ []
  | some role ↦ get_permissions_for_role role
]

-- An entry holds the member's present role and the permissions of that role.
abbrev pub IsTrueEntry : List Membership → ℕ → ℕ → Option PermissionCacheEntry → Type 0
IsTrueEntry members t u none = Unit
IsTrueEntry members t u (some e) =
    (current_role members t u ≡ some e.role) × (e.perms ≡ get_permissions_for_role e.role)

abbrev pub IsTrue : Service → Type 0
IsTrue s = (t u : ℕ) → IsTrueEntry s.members t u (s.cache t u)

pub nothing_granted : (p : String) → has_permission [] p ≡ false
unfolding has_permission
nothing_granted p = refl

pub check_permission_lem :
    (v : Env) (t u : ℕ) (p : String) (s : Service)
    → IsTrue s
    → v.down 0 ≡ false
    → (check_permission v t u p s).0 ≡ ok (has_permission (permissions_of s.members t u) p)
unfolding check_permission permissions_of get_cached_permissions
check_permission_lem v t u p s h up = ground (arith, h t u, nothing_granted p)

abbrev pub verdict : Bool → Result (Unit {0})
verdict allowed = if allowed then ok tt else err forbidden

-- A new entry for the present role is true, and the others stay.
set_cached_permissions-IsTrue :
    (s : Service) (now t u : ℕ) (role : String)
    → IsTrue s
    → current_role s.members t u ≡ some role
    → IsTrue (set_cached_permissions s now t u role (get_permissions_for_role role))
unfolding set_cached_permissions update
set_cached_permissions-IsTrue s now t u role h e t' u' = ground (arith, h t' u')

-- What a look-up does to the service: nothing, or one entry for the present role.
pub load_effect :
    (v : Env) (t u : ℕ) (s : Service)
    → ((load v t u s).1 ≡ s)
      ⊎ ((role : String) × (current_role s.members t u ≡ some role)
          × ((load v t u s).1
              ≡ set_cached_permissions s (v.now 1) t u role (get_permissions_for_role role)))
unfolding load
load_effect v t u s = elim (Option-cases (get_cached_permissions s (v.now 0) t u)) [
  | inr (entry, hit) ↦ inl (ground (arith, hit))
  | inl miss ↦ elim (Option-cases (current_role s.members t u)) [
    | inl nobody ↦ inl (ground (arith, miss, nobody))
    | inr (role, e) ↦ elim (Bool-cases (v.down 0)) [
      | inl failed ↦ inl (ground (arith, miss, failed))
      | inr up ↦ inr (role, e, ground (arith, miss, e, up))
    ]
  ]
]

pub load-IsTrue : (v : Env) (t u : ℕ) (s : Service) → IsTrue s → IsTrue (load v t u s).1
load-IsTrue v t u s h = elim (load_effect v t u s) [
  | inl same ↦ subst IsTrue (sym same) h
  | inr (role, e, stored) ↦
      subst IsTrue (sym stored) (set_cached_permissions-IsTrue s (v.now 1) t u role h e)
]
