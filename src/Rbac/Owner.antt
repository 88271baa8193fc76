-- ===== src/Rbac/Owner.antt =====
-- The tenant's owner keeps the role (internal/service/tenant_service.go), and what an entry that
-- is stored late does to the cache (internal/rbac/rbac.go).
use guestbook.Prelude.{
  ℕ, ◌+◌, leb, ◌==◌, if◌then◌else◌, String, eq_iff, ◌≡◌, refl, ap, ◌∙◌, inl, inr, false, ◌&&◌, some,
  List, [], ◌∷◌, arith, find_first, update_if, find_first-update_if_ne, Bool-cases,
}
use guestbook.Action.{ok, Env}
use guestbook.Rbac.Roles.{tenant_owner, get_permissions_for_role, has_permission}
use guestbook.Rbac.Service.{
  Membership, Service, update, set_cached_permissions, invalidate_user, get_cached_permissions,
  load, check_permission,
}
use guestbook.Rbac.Team.{is_active_member, update_user_role, remove_user}
use guestbook.Rbac.Cache.{load_effect, permissions_of, nothing_granted}
use guestbook.Rbac.Changes.{
  IsChange, unchanged, changed, set_role, deactivate, update_user_role-IsChange,
  remove_user-IsChange, check_permission-state, Request, check, change_role, remove, serve,
  serve_all,
}

abbrev pub IsOwner : ℕ → ℕ → Service → Type 0
IsOwner t u s =
    (m : Membership) × (find_first (is_active_member t u) s.members ≡ some m)
    × (m.role ≡ tenant_owner)

module _ (t u : ℕ) where
  update_user_role-owner :
      (v : Env) (c : ℕ) (role : String) (s : Service)
      → IsOwner t u s
      → (update_user_role v t c u role s).1 ≡ s
  unfolding update_user_role
  update_user_role-owner v c role s (m, found, owner) =
      ground (arith, found, (eq_iff m.role tenant_owner).1 owner)

  remove_user-owner :
      (v : Env) (r : ℕ) (s : Service) → IsOwner t u s → (remove_user v t r u s).1 ≡ s
  unfolding remove_user
  remove_user-owner v r s (m, found, owner) =
      ground (arith, found, (eq_iff m.role tenant_owner).1 owner)

  -- A change of another member leaves this one's row.
  IsChange-IsOwner :
      (t' u' : ℕ) (f : Membership → Membership) (s s' : Service)
      → ((m : Membership) → ((f m).tenant_id ≡ m.tenant_id) × ((f m).user_id ≡ m.user_id))
      → (t == t' && u == u') ≡ false
      → IsChange t' u' f s s'
      → IsOwner t u s
      → IsOwner t u s'
  IsChange-IsOwner t' u' f s s' keeps other unchanged h = h
  IsChange-IsOwner t' u' f s s' keeps other (changed ms c) (m, found, owner) =
      let same : find_first (is_active_member t u) (update_if (is_active_member t' u') f s.members)
          ≡ find_first (is_active_member t u) s.members =
        find_first-update_if_ne (is_active_member t u) (is_active_member t' u') f s.members
          (λ x q. ground (arith, keeps x)) in
      (m, rw ms (same ∙ found), owner)

  load-members : (v : Env) (t' u' : ℕ) (s : Service) → (load v t' u' s).1.members ≡ s.members
  unfolding set_cached_permissions
  load-members v t' u' s = elim (load_effect v t' u' s) [
    | inl same ↦ ap (λ x. x.members) same
    | inr (role, e, stored) ↦ ap (λ x. x.members) stored
  ]

  serve-IsOwner : (r : Request) (s : Service) → IsOwner t u s → IsOwner t u (serve r s)
  unfolding serve set_role deactivate
  serve-IsOwner (check v t' u' p) s h =
      let same : (check_permission v t' u' p s).1.members ≡ s.members =
        ap (λ x. x.members) (check_permission-state v t' u' p s) ∙ load-members v t' u' s in
      (h.0, rw same h.1, h.2)
  serve-IsOwner (change_role v t' c u' role) s h = elim (Bool-cases (t == t' && u == u')) [
    | inl target ↦ (h.0, ground (arith, target, h.1, update_user_role-owner v c role s h), h.2)
    | inr other ↦
        IsChange-IsOwner t' u' (set_role role) s (update_user_role v t' c u' role s).1
          (λ m. (refl, refl)) other (update_user_role-IsChange v t' c u' role s) h
  ]
  serve-IsOwner (remove v t' r u') s h = elim (Bool-cases (t == t' && u == u')) [
    | inl target ↦ (h.0, ground (arith, target, h.1, remove_user-owner v r s h), h.2)
    | inr other ↦
        IsChange-IsOwner t' u' deactivate s (remove_user v t' r u' s).1 (λ m. (refl, refl)) other
          (remove_user-IsChange v t' r u' s) h
  ]

  -- Whatever permission checks, changes of roles and removals are served, in any environments, an
  -- active owner stays an active owner.
  pub serve_all-IsOwner :
      (rs : List Request) (s : Service) → IsOwner t u s → IsOwner t u (serve_all rs s)
  unfolding serve_all
  serve_all-IsOwner [] s h = h
  serve_all-IsOwner (r ∷ rs) s h = serve_all-IsOwner rs (serve r s) (serve-IsOwner r s h)

-- When a request that read a role earlier stores it right after `InvalidateUser`, a check whose
-- own statement does not fail answers by that role until the entry's expiry, `ttl` after the
-- store, and by the membership after it.
pub check_permission-stored_late :
    (v : Env) (now t u : ℕ) (old p : String) (s : Service)
    → v.down 0 ≡ false
    → (check_permission v t u p (
        set_cached_permissions
          (invalidate_user s t u)
          now
          t
          u
          old
          (get_permissions_for_role old))).0
      ≡ ok (
          has_permission
            (if leb (v.now 0) (now + s.ttl)
              then get_permissions_for_role old
              else permissions_of s.members t u)
            p)
unfolding check_permission get_cached_permissions set_cached_permissions invalidate_user update
    permissions_of
check_permission-stored_late v now t u old p s up = ground (arith, nothing_granted p)
