-- ===== src/Rbac/Changes.antt =====
-- Changes of memberships and the permission cache together: internal/service/tenant_service.go
-- calls `InvalidateUser` of internal/rbac/rbac.go after each.
use guestbook.Prelude.{
  ℕ, ◌==◌, String, str_eq, ◌≡◌, refl, sym, ap, ◌∙◌, subst, inl, inr, false, not, ◌&&◌, Option, none,
  some, List, [], ◌∷◌, arith, update_if, find_first-update_if_ne, Bool-cases,
}
use guestbook.Action.{ok, Env}
use guestbook.Rbac.Roles.{has_permission}
use guestbook.Rbac.Service.{
  PermissionCacheEntry, Membership, Service, new_service, current_role, update, load,
  check_permission,
}
use guestbook.Rbac.Team.{is_active_member, update_user_role, remove_user}
use guestbook.Rbac.Cache.{IsTrueEntry, IsTrue, permissions_of, load-IsTrue, check_permission_lem}

-- Another member's role does not depend on the rows of this one.
current_role-update_ne :
    (ms : List Membership) (t u t' u' : ℕ) (f : Membership → Membership)
    → ((m : Membership) → ((f m).tenant_id ≡ m.tenant_id) × ((f m).user_id ≡ m.user_id))
    → (t' == t && u' == u) ≡ false
    → current_role (update_if (is_active_member t u) f ms) t' u' ≡ current_role ms t' u'
unfolding current_role
current_role-update_ne ms t u t' u' f keeps other =
    rw
      (
        current_role,
        find_first-update_if_ne
            (λ m. m.tenant_id == t' && (m.user_id == u' && not (str_eq m.status "inactive")))
            (is_active_member t u) f ms (λ m q. ground (arith, keeps m)),
      )
      refl

-- The two ways in which a change of a member ends: nothing is written, or the member's rows are
-- changed and the cached entry is gone.
pub data IsChange (t u : ℕ) (f : Membership → Membership) (s : Service) : Service → Type 0 where
  unchanged : IsChange t u f s s
  changed :
      {s' : Service}
      → s'.members ≡ update_if (is_active_member t u) f s.members
      → s'.cache ≡ update s.cache t u none
      → IsChange t u f s s'

IsTrueEntry-transfer :
    (ms ms' : List Membership) (t u : ℕ)
    → current_role ms t u ≡ current_role ms' t u
    → (e : Option PermissionCacheEntry) → IsTrueEntry ms t u e
    → IsTrueEntry ms' t u e
IsTrueEntry-transfer ms ms' t u same none h = tt
IsTrueEntry-transfer ms ms' t u same (some e) h = (sym same ∙ h.0, h.1)

-- A change that keeps the keys of the rows keeps the cache true.
IsChange-IsTrue :
    (t u : ℕ) (f : Membership → Membership) (s s' : Service)
    → ((m : Membership) → ((f m).tenant_id ≡ m.tenant_id) × ((f m).user_id ≡ m.user_id))
    → IsChange t u f s s'
    → IsTrue s
    → IsTrue s'
unfolding update
IsChange-IsTrue t u f s s' keeps unchanged h = h
IsChange-IsTrue t u f s s' keeps (changed m c) h = λ t' u'. elim (Bool-cases (t' == t && u' == u)) [
  | inl target ↦
      let gone : s'.cache t' u' ≡ none = ground (arith, ap (λ k. k t' u') c, target) in
      subst (IsTrueEntry s'.members t' u') (sym gone) tt
  | inr other ↦
      let same : s'.cache t' u' ≡ s.cache t' u' = ground (arith, ap (λ k. k t' u') c, other) in
      let role : current_role s'.members t' u' ≡ current_role s.members t' u' =
        rw m (current_role-update_ne s.members t u t' u' f keeps other) in
      subst (IsTrueEntry s'.members t' u') (sym same)
        (IsTrueEntry-transfer s.members s'.members t' u' (sym role) (s.cache t' u') (h t' u'))
]

unfoldable pub set_role : String → Membership → Membership
set_role role m = record m { role = role }

unfoldable pub deactivate : Membership → Membership
deactivate m = record m { status = "inactive" }

pub update_user_role-IsChange :
    (v : Env) (t c u : ℕ) (role : String) (s : Service)
    → IsChange t u (set_role role) s (update_user_role v t c u role s).1
unfolding update_user_role set_role
update_user_role-IsChange v t c u role s = grind (arith, unchanged, changed)

pub remove_user-IsChange :
    (v : Env) (t r u : ℕ) (s : Service) → IsChange t u deactivate s (remove_user v t r u s).1
unfolding remove_user deactivate
remove_user-IsChange v t r u s = grind (arith, unchanged, changed)

-- One request that the service serves: a permission check, a change of a role, a removal.
pub data Request : Type 0 where
  check : Env → ℕ → ℕ → String → Request
  change_role : Env → ℕ → ℕ → ℕ → String → Request
  remove : Env → ℕ → ℕ → ℕ → Request

unfoldable pub serve : Request → Service → Service
serve (check v t u p) s = (check_permission v t u p s).1
serve (change_role v t c u role) s = (update_user_role v t c u role s).1
serve (remove v t r u) s = (remove_user v t r u s).1

unfoldable pub serve_all : List Request → Service → Service
serve_all [] s = s
serve_all (r ∷ rs) s = serve_all rs (serve r s)

pub check_permission-state :
    (v : Env) (t u : ℕ) (p : String) (s : Service)
    → (check_permission v t u p s).1 ≡ (load v t u s).1
unfolding check_permission
check_permission-state v t u p s = ground arith

serve-IsTrue : (r : Request) (s : Service) → IsTrue s → IsTrue (serve r s)
unfolding serve set_role deactivate
serve-IsTrue (check v t u p) s h =
    subst IsTrue (sym (check_permission-state v t u p s)) (load-IsTrue v t u s h)
serve-IsTrue (change_role v t c u role) s h =
    IsChange-IsTrue t u (set_role role) s (update_user_role v t c u role s).1 (λ m. (refl, refl))
      (update_user_role-IsChange v t c u role s) h
serve-IsTrue (remove v t r u) s h =
    IsChange-IsTrue t u deactivate s (remove_user v t r u s).1 (λ m. (refl, refl))
      (remove_user-IsChange v t r u s) h

serve_all-IsTrue : (rs : List Request) (s : Service) → IsTrue s → IsTrue (serve_all rs s)
unfolding serve_all
serve_all-IsTrue [] s h = h
serve_all-IsTrue (r ∷ rs) s h = serve_all-IsTrue rs (serve r s) (serve-IsTrue r s h)

-- After any requests, served one after the other from an empty cache and with any of their
-- statements failing, a check whose own statement does not fail answers what the memberships
-- then say: no cached role outlives the change or the removal of its member.
pub check_permission_after_requests :
    (members : List Membership) (rs : List Request) (v : Env) (t u : ℕ) (p : String)
    → v.down 0 ≡ false
    → let s = serve_all rs (new_service members) in
      (check_permission v t u p s).0 ≡ ok (has_permission (permissions_of s.members t u) p)
check_permission_after_requests members rs v t u p up =
    let s = serve_all rs (new_service members) in
    check_permission_lem v t u p s
      (serve_all-IsTrue rs (new_service members) (unfold new_service in λ t' u'. tt)) up
