-- ===== src/Auth/Used.antt =====
-- Links in mails that are used stay so: internal/repository/auth_email_token_repository.go and
-- every call of internal/service/auth_service.go.
use guestbook.Prelude.{
  ℕ, ◌*◌, ◌==◌, String, str_eq, ◌≡◌, refl, Bool, true, false, not, ◌&&◌, ◌||◌, some, List, [], ◌∷◌,
  arith, inl, inr, Option-cases, All, all, update_if,
}
use guestbook.Action.{Result-cases, Env, from, ok}
use guestbook.Store.{is_null}
use guestbook.Auth.Rows.{
  AuthEmailToken, Accounts, AuthService, Libraries, LoginRequest, RegisterRequest,
  UserProfileUpdateRequest, ChangePasswordRequest,
}
use guestbook.Auth.Repo.{
  find_user_by_email, revoke_all_for_user, update_password, update_user, get_user_by_id,
  get_user_by_email, email_exists_for, consume_action_token, consume_verification,
  insert_action_token, invalidate_action_tokens,
}
use guestbook.Auth.Tokens.{
  second, create_refresh_token, validate, revoke, revoke_all_user_tokens, rotate,
}
use guestbook.Auth.Service.{
  to_address, start_session, login, verify_email, verify_address, resend_to, resend_verification,
  create_auth_email_token, forgot_password, request_magic_link, reset_password, consume_magic_link,
  logout, refresh, refresh_session, update_profile, change_password,
}
use guestbook.Auth.Register.{first_token, store_account, register}
use guestbook.Auth.Requests.{
  Request, perform, serve_all, Call, signing_up, signing_in, verifying, resending, forgetting,
  linking, following, refreshing, resetting, leaving, rotating, editing, changing,
}

-- Every row with the hash is used.
unfoldable pub is_used : String → List AuthEmailToken → Bool
is_used hash = all (λ t. not (str_eq t.token_hash hash) || not (is_null t.used_at))

abbrev pub with_hash : String → AuthEmailToken → Bool
with_hash hash t = str_eq t.token_hash hash

-- No random token that the environment draws has the hash.
abbrev pub IsNew : Libraries → String → Env → Type 0
IsNew c hash v =
    (k : ℕ) (raw : String) → c.random_hex (v.fresh k) ≡ ok raw → str_eq (c.sha256 raw) hash ≡ false

is_used-update :
    (hash : String) (p : AuthEmailToken → Bool) (now : ℕ) (ts : List AuthEmailToken)
    → is_used hash ts ≡ true
    → is_used hash (update_if p (λ t. record t { used_at = some now }) ts) ≡ true
unfolding is_used all update_if
is_used-update hash p now [] h = refl
is_used-update hash p now (t ∷ ts) h = ground (arith, is_used-update hash p now ts)

module _ (a : AuthService) (hash : String) where
  abbrev pub Used : Accounts → Type 0
  Used s = is_used hash s.action_tokens ≡ true

  create-Used :
      (v : Env) (user : ℕ) (purpose : String) (lifetime : ℕ) (s : Accounts)
      → ((raw : String)
          → a.libraries.random_hex (v.fresh 0) ≡ ok raw
          → str_eq (a.libraries.sha256 raw) hash ≡ false)
      → Used s
      → Used (create_auth_email_token a.libraries v user purpose lifetime s).1
  unfolding create_auth_email_token invalidate_action_tokens insert_action_token is_used all
  create-Used v user purpose lifetime s new h =
      elim (Result-cases (a.libraries.random_hex (v.fresh 0))) [
        | inl (raw, drawn) ↦
            let fresh_hash = new raw drawn in
            ground (
              arith,
              drawn,
              fresh_hash,
              h,
              is_used-update hash
                  (λ t. t.user_id == user && (str_eq t.purpose purpose && is_null t.used_at))
                  (v.now 1) s.action_tokens,
            )
        | inr (e, failed) ↦ ground (arith, failed, h)
      ]

  consume-Used :
      (v : Env) (h' purpose : String) (now : ℕ) (s : Accounts)
      → Used s
      → Used (consume_action_token v h' purpose now s).1
  unfolding consume_action_token
  consume-Used v h' purpose now s h = grind (arith, is_used-update)

  login-Used : (v : Env) (req : LoginRequest) (s : Accounts) → Used s → Used (login a v req s).1
  unfolding login start_session create_refresh_token
  login-Used v req s h = ground (arith, h)

  verify-Used :
      (v : Env) (token : String) (s : Accounts) → Used s → Used (verify_email a v token s).1
  unfolding verify_email verify_address get_user_by_id consume_verification start_session
  verify-Used v token s h = ground (arith, h)

  resend-Used :
      (v : Env) (email : String) (s : Accounts) → Used s → Used (resend_verification a v email s).1
  unfolding resend_verification get_user_by_email resend_to
  resend-Used v email s h = ground (arith, h)

  forgot-Used :
      (v : Env) (email : String) (s : Accounts)
      → IsNew a.libraries hash v
      → Used s
      → Used (forgot_password a v email s).1
  unfolding forgot_password get_user_by_email
  forgot-Used v email s new h =
      elim (Option-cases (find_user_by_email (to_address a.libraries email) s)) [
        | inl nobody ↦ ground (arith, nobody, h)
        | inr (u, known) ↦ ground (
          arith,
          known,
          h,
          create-Used (from 1 v) u.id "password_reset" (1800 * second) s (new 1) h,
        )
      ]

  link-Used :
      (v : Env) (email : String) (s : Accounts)
      → IsNew a.libraries hash v
      → Used s
      → Used (request_magic_link a v email s).1
  unfolding request_magic_link get_user_by_email
  link-Used v email s new h =
      elim (Option-cases (find_user_by_email (to_address a.libraries email) s)) [
        | inl nobody ↦ ground (arith, nobody, h)
        | inr (u, known) ↦
            ground (
              arith,
              known,
              h,
              create-Used (from 1 v) u.id "magic_login" (900 * second) s (new 1) h,
            )
      ]

  reset-Used :
      (v : Env) (token password : String) (s : Accounts)
      → Used s
      → Used (reset_password a v token password s).1
  unfolding reset_password revoke_all_for_user update_password
  reset-Used v token password s h =
      ground (arith, h, consume-Used v (a.libraries.sha256 token) "password_reset" (v.now 0) s h)

  follow-Used :
      (v : Env) (token : String) (s : Accounts) → Used s → Used (consume_magic_link a v token s).1
  unfolding consume_magic_link get_user_by_id start_session create_refresh_token
  follow-Used v token s h =
      ground (arith, h, consume-Used v (a.libraries.sha256 token) "magic_login" (v.now 0) s h)

  refresh-Used : (v : Env) (token : String) (s : Accounts) → Used s → Used (refresh a v token s).1
  unfolding refresh validate refresh_session revoke create_refresh_token
  refresh-Used v token s h = ground (arith, h)

  rotate-Used :
      (v : Env) (token device : String) (s : Accounts)
      → Used s
      → Used (rotate a.libraries v token device s).1
  unfolding rotate validate
  rotate-Used v token device s h = ground (arith, h)

  logout-Used : (v : Env) (user id : ℕ) (s : Accounts) → Used s → Used (logout v user id s).1
  unfolding logout revoke
  logout-Used v user id s h = ground (arith, h)

  profile-Used :
      (v : Env) (user : ℕ) (req : UserProfileUpdateRequest) (s : Accounts)
      → Used s
      → Used (update_profile a v user req s).1
  unfolding update_profile update_user get_user_by_id email_exists_for
  profile-Used v user req s h = ground (arith, h)

  change-Used :
      (v : Env) (user : ℕ) (req : ChangePasswordRequest) (s : Accounts)
      → Used s
      → Used (change_password a v user req s).1
  unfolding change_password update_password revoke_all_user_tokens
  change-Used v user req s h = ground (arith, h)

  register-Used :
      (v : Env) (req : RegisterRequest) (s : Accounts) → Used s → Used (register a v req s).1
  unfolding register store_account first_token create_refresh_token
  register-Used v req s h = ground (arith, h)

  -- A link that is used stays so, whatever is served.
  perform-Used :
      (v : Env) (call : Call) (s : Accounts)
      → IsNew a.libraries hash v
      → Used s
      → Used (perform a v call s)
  unfolding perform
  perform-Used v (signing_up req) s new h = register-Used v req s h
  perform-Used v (signing_in req) s new h = login-Used v req s h
  perform-Used v (verifying token) s new h = verify-Used v token s h
  perform-Used v (resending email) s new h = resend-Used v email s h
  perform-Used v (forgetting email) s new h = forgot-Used v email s new h
  perform-Used v (linking email) s new h = link-Used v email s new h
  perform-Used v (following token) s new h = follow-Used v token s h
  perform-Used v (refreshing token) s new h = refresh-Used v token s h
  perform-Used v (resetting token password) s new h = reset-Used v token password s h
  perform-Used v (leaving user id) s new h = logout-Used v user id s h
  perform-Used v (rotating token device) s new h = rotate-Used v token device s h
  perform-Used v (editing user req) s new h = profile-Used v user req s h
  perform-Used v (changing user req) s new h = change-Used v user req s h

  pub serve_all-Used :
      (rs : List Request) (s : Accounts)
      → All (λ r. IsNew a.libraries hash r.env) rs
      → Used s
      → Used (serve_all a rs s)
  unfolding serve_all
  serve_all-Used [] s new h = h
  serve_all-Used (r ∷ rs) s new h =
      serve_all-Used rs (perform a r.env r.call s) new.1 (perform-Used r.env r.call s new.0 h)
