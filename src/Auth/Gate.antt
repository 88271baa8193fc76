-- ===== src/Auth/Gate.antt =====
-- Who may sign in: `Login` of internal/service/auth_service.go.
use guestbook.Prelude.{String, ◌≡◌, true, false, ◌&&◌, some, ◌∷◌, arith, inl, inr, Option-cases}
use guestbook.Action.{Env, from, ok}
use guestbook.Store.{is_null, User}
use guestbook.Auth.Rows.{Accounts, AuthService, LoginRequest, is_active_user, sanitize}
use guestbook.Auth.Repo.{find_user_by_email, get_user_by_email}
use guestbook.Auth.Tokens.{new_refresh_token, create_refresh_token}
use guestbook.Auth.Service.{Session, start_session, login}

session_started :
    (a : AuthService) (v : Env) (user : User) (device : String) (s : Accounts) (r : Session)
    → (start_session a v user device s).0 ≡ ok r
    → (r.0 ≡ sanitize user)
      × ((start_session a v user device s).1 ≡ record s {
        refresh_tokens = new_refresh_token a.libraries (from 2 v) user.id device ∷ s.refresh_tokens;
      })
unfolding start_session create_refresh_token
session_started a v user device s r h = (ground (arith, h), ground (arith, h))

-- A sign-in that is accepted is of a user with that address whose account is active, whose stored
-- hash matches the password, and whose address is verified where that is demanded; it answers this
-- user without the hash, and all that it writes is one new refresh token of the user.
pub login_gate :
    (a : AuthService) (v : Env) (req : LoginRequest) (s : Accounts) (r : Session)
    → (login a v req s).0 ≡ ok r
    → (u : User) × (find_user_by_email req.email s ≡ some u)
      × (is_active_user u ≡ true)
      × (a.libraries.bcrypt_matches req.password u.password_hash ≡ true)
      × ((a.verify_email_enabled && is_null u.email_verified_at) ≡ false)
      × (r.0 ≡ sanitize u)
      × ((login a v req s).1 ≡ record s {
        refresh_tokens = new_refresh_token a.libraries (from 3 v) u.id "default" ∷ s.refresh_tokens;
      })
unfolding login get_user_by_email
login_gate a v req s r h = elim (Option-cases (find_user_by_email req.email s)) [
  | inl nobody ↦ ground (arith, nobody, h)
  | inr (u, known) ↦
      let started = session_started a (from 1 v) u "default" s r in
      (
        u,
        known,
        ground (arith, known, h),
        ground (arith, known, h),
        ground (arith, known, h),
        ground (arith, known, h, started),
        ground (arith, known, h, started),
      )
]
