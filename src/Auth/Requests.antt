-- ===== src/Auth/Requests.antt =====
-- Sequences of the calls of internal/service/auth_service.go that may write, and of `Rotate` of
-- internal/auth/refresh.go, served one after the other, each in its own environment.
use guestbook.Prelude.{ℕ, String, List, [], ◌∷◌}
use guestbook.Action.{Env}
use guestbook.Auth.Rows.{
  Accounts, AuthService, LoginRequest, RegisterRequest, UserProfileUpdateRequest,
  ChangePasswordRequest,
}
use guestbook.Auth.Tokens.{rotate}
use guestbook.Auth.Service.{
  login, verify_email, resend_verification, forgot_password, request_magic_link, reset_password,
  consume_magic_link, logout, refresh, update_profile, change_password,
}
use guestbook.Auth.Register.{register}

pub data Call : Type 0 where
  signing_up : RegisterRequest → Call
  signing_in : LoginRequest → Call
  verifying resending forgetting linking following refreshing : String → Call
  resetting : String → String → Call
  leaving : ℕ → ℕ → Call
  rotating : String → String → Call
  editing : ℕ → UserProfileUpdateRequest → Call
  changing : ℕ → ChangePasswordRequest → Call

pub record Request : Type 0 where
  pub env : Env
  pub call : Call

unfoldable pub perform : AuthService → Env → Call → Accounts → Accounts
perform a v (signing_up req) s = (register a v req s).1
perform a v (signing_in req) s = (login a v req s).1
perform a v (verifying token) s = (verify_email a v token s).1
perform a v (resending email) s = (resend_verification a v email s).1
perform a v (forgetting email) s = (forgot_password a v email s).1
perform a v (linking email) s = (request_magic_link a v email s).1
perform a v (following token) s = (consume_magic_link a v token s).1
perform a v (refreshing token) s = (refresh a v token s).1
perform a v (resetting token password) s = (reset_password a v token password s).1
perform a v (leaving user id) s = (logout v user id s).1
perform a v (rotating token device) s = (rotate a.libraries v token device s).1
perform a v (editing user req) s = (update_profile a v user req s).1
perform a v (changing user req) s = (change_password a v user req s).1

unfoldable pub serve_all : AuthService → List Request → Accounts → Accounts
unfolding perform
serve_all a [] s = s
serve_all a (r ∷ rs) s = serve_all a rs (perform a r.env r.call s)
