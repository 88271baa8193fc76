-- ===== src/Auth/Spent.antt =====
-- Refresh tokens that are revoked stay so: internal/auth/refresh.go and every call of
-- internal/service/auth_service.go.
use guestbook.Prelude.{
  ℕ, String, str_eq, ◌≡◌, refl, Bool, true, false, not, ◌||◌, Option, some, List, [], ◌∷◌, arith,
  All, all, update_if,
}
use guestbook.Action.{Env, from}
use guestbook.Store.{is_null, User}
use guestbook.Auth.Rows.{
  RefreshToken, Accounts, AuthService, Libraries, LoginRequest, RegisterRequest,
  UserProfileUpdateRequest, ChangePasswordRequest,
}
use guestbook.Auth.Repo.{
  has_hash, revoked, is_live_token, is_live_of, revoke_all_for_user, update_password, update_user,
  get_user_by_id, get_user_by_email, email_exists_for, consume_action_token, consume_verification,
}
use guestbook.Auth.Tokens.{
  raw_token, create_refresh_token, validate, revoke, revoke_all_user_tokens, rotate,
}
use guestbook.Auth.Service.{
  start_session, login, verify_email, verify_address, resend_to, resend_verification,
  create_auth_email_token, forgot_password, request_magic_link, reset_password, consume_magic_link,
  logout, refresh, update_profile, change_password,
}
use guestbook.Auth.Register.{first_token, store_account, register}
use guestbook.Auth.Requests.{
  Request, perform, serve_all, Call, signing_up, signing_in, verifying, resending, forgetting,
  linking, following, refreshing, resetting, leaving, rotating, editing, changing,
}

-- Every row with the hash is revoked.
unfoldable pub is_dead : String → List RefreshToken → Bool
is_dead hash = all (λ t. not (has_hash hash t) || not (is_null t.revoked_at))

-- No token that the environment draws has the hash.
abbrev pub IsFresh : Libraries → String → Env → Type 0
IsFresh c hash v = (k : ℕ) → str_eq (c.sha256 (raw_token c (from k v))) hash ≡ false

pub is_dead-update :
    (hash : String) (p : RefreshToken → Bool) (now : ℕ) (by : Option ℕ) (ts : List RefreshToken)
    → is_dead hash ts ≡ true
    → is_dead hash (update_if p (revoked now by) ts) ≡ true
unfolding is_dead all update_if
is_dead-update hash p now by [] h = refl
is_dead-update hash p now by (t ∷ ts) h = ground (arith, is_dead-update hash p now by ts)

is_dead-new :
    (hash : String) (t : RefreshToken) (ts : List RefreshToken)
    → has_hash hash t ≡ false
    → is_dead hash ts ≡ true
    → is_dead hash (t ∷ ts) ≡ true
unfolding is_dead all
is_dead-new hash t ts new h = ground (arith, new, h)

module _ (a : AuthService) (hash : String) where
  abbrev pub Dead : Accounts → Type 0
  Dead s = is_dead hash s.refresh_tokens ≡ true

  create-Dead :
      (v : Env) (user : ℕ) (device : String) (s : Accounts)
      → IsFresh a.libraries hash v
      → Dead s
      → Dead (create_refresh_token a.libraries v user device s).1
  unfolding create_refresh_token is_dead all
  create-Dead v user device s new h = ground (arith, new 0, h)

  session-Dead :
      (v : Env) (user : User) (device : String) (s : Accounts)
      → str_eq (a.libraries.sha256 (raw_token a.libraries (from 2 v))) hash ≡ false
      → Dead s
      → Dead (start_session a v user device s).1
  unfolding start_session is_dead all
  session-Dead v user device s new h = ground (arith, new, h)

  login-Dead :
      (v : Env) (req : LoginRequest) (s : Accounts)
      → IsFresh a.libraries hash v
      → Dead s
      → Dead (login a v req s).1
  unfolding login get_user_by_email is_dead all
  login-Dead v req s new h = ground (arith, new 3, h)

  verify-Dead :
      (v : Env) (token : String) (s : Accounts)
      → IsFresh a.libraries hash v
      → Dead s
      → Dead (verify_email a v token s).1
  unfolding verify_email verify_address get_user_by_id consume_verification is_dead all
  verify-Dead v token s new h = ground (arith, new 8, h)

  resend-Dead :
      (v : Env) (email : String) (s : Accounts) → Dead s → Dead (resend_verification a v email s).1
  unfolding resend_verification get_user_by_email resend_to
  resend-Dead v email s h = ground (arith, h)

  forgot-Dead :
      (v : Env) (email : String) (s : Accounts) → Dead s → Dead (forgot_password a v email s).1
  unfolding forgot_password create_auth_email_token
  forgot-Dead v email s h = ground (arith, h)

  link-Dead :
      (v : Env) (email : String) (s : Accounts) → Dead s → Dead (request_magic_link a v email s).1
  unfolding request_magic_link create_auth_email_token
  link-Dead v email s h = ground (arith, h)

  reset-Dead :
      (v : Env) (token password : String) (s : Accounts)
      → Dead s
      → Dead (reset_password a v token password s).1
  unfolding reset_password revoke_all_for_user update_password consume_action_token
  reset-Dead v token password s h = grind (arith, is_dead-update)

  follow-Dead :
      (v : Env) (token : String) (s : Accounts)
      → IsFresh a.libraries hash v
      → Dead s
      → Dead (consume_magic_link a v token s).1
  unfolding consume_magic_link get_user_by_id consume_action_token is_dead all
  follow-Dead v token s new h = ground (arith, new 7, h)

  refresh-Dead :
      (v : Env) (token : String) (s : Accounts)
      → IsFresh a.libraries hash v
      → Dead s
      → Dead (refresh a v token s).1
  unfolding refresh validate revoke create_refresh_token
  refresh-Dead v token s new h = grind (arith, is_dead-update, is_dead-new, new 3)

  logout-Dead : (v : Env) (user id : ℕ) (s : Accounts) → Dead s → Dead (logout v user id s).1
  unfolding logout revoke
  logout-Dead v user id s h =
      ground
        (arith, h, is_dead-update hash (is_live_token id) (v.now 0) (some user) s.refresh_tokens)

  profile-Dead :
      (v : Env) (user : ℕ) (req : UserProfileUpdateRequest) (s : Accounts)
      → Dead s
      → Dead (update_profile a v user req s).1
  unfolding update_profile update_user get_user_by_id email_exists_for
  profile-Dead v user req s h = ground (arith, h)

  change-Dead :
      (v : Env) (user : ℕ) (req : ChangePasswordRequest) (s : Accounts)
      → Dead s
      → Dead (change_password a v user req s).1
  unfolding change_password update_password revoke_all_user_tokens
  change-Dead v user req s h =
      ground
        (arith, h, is_dead-update hash (is_live_of user) (v.now 2) (some user) s.refresh_tokens)

  register-Dead :
      (v : Env) (req : RegisterRequest) (s : Accounts)
      → IsFresh a.libraries hash v
      → Dead s
      → Dead (register a v req s).1
  unfolding register store_account first_token create_refresh_token is_dead all
  register-Dead v req s new h = ground (arith, new 13, h)

  rotate-Dead :
      (v : Env) (token device : String) (s : Accounts)
      → IsFresh a.libraries hash v
      → Dead s
      → Dead (rotate a.libraries v token device s).1
  unfolding rotate validate
  rotate-Dead v token device s new h = grind (arith, is_dead-update, is_dead-new, new 0)

  -- A token that is revoked stays so, whatever is served.
  perform-Dead :
      (v : Env) (call : Call) (s : Accounts)
      → IsFresh a.libraries hash v
      → Dead s
      → Dead (perform a v call s)
  unfolding perform
  perform-Dead v (signing_up req) s new h = register-Dead v req s new h
  perform-Dead v (signing_in req) s new h = login-Dead v req s new h
  perform-Dead v (verifying token) s new h = verify-Dead v token s new h
  perform-Dead v (resending email) s new h = resend-Dead v email s h
  perform-Dead v (forgetting email) s new h = forgot-Dead v email s h
  perform-Dead v (linking email) s new h = link-Dead v email s h
  perform-Dead v (following token) s new h = follow-Dead v token s new h
  perform-Dead v (refreshing token) s new h = refresh-Dead v token s new h
  perform-Dead v (resetting token password) s new h = reset-Dead v token password s h
  perform-Dead v (leaving user id) s new h = logout-Dead v user id s h
  perform-Dead v (rotating token device) s new h = rotate-Dead v token device s new h
  perform-Dead v (editing user req) s new h = profile-Dead v user req s h
  perform-Dead v (changing user req) s new h = change-Dead v user req s h

  pub serve_all-Dead :
      (rs : List Request) (s : Accounts)
      → All (λ r. IsFresh a.libraries hash r.env) rs
      → Dead s
      → Dead (serve_all a rs s)
  unfolding serve_all
  serve_all-Dead [] s new h = h
  serve_all-Dead (r ∷ rs) s new h =
      serve_all-Dead rs (perform a r.env r.call s) new.1 (perform-Dead r.env r.call s new.0 h)
