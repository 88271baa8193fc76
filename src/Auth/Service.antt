-- ===== src/Auth/Service.antt =====
-- internal/service/auth_service.go, but for `Register`. A mail that cannot be sent, also for lack of
-- a mailer, is a failed statement at its place.
use guestbook.Prelude.{
  ℕ, ◌+◌, ◌*◌, String, str_eq, is_empty, opt_text, trim_space, Bool, true, false, not, ◌&&◌, ◌||◌,
  Option, none, some, ◌∷◌, if◌then◌else◌,
}
use guestbook.Action.{
  Error, invalid_input, email_exists, invalid_credentials, password_invalid, user_inactive,
  sign_in_token_invalid, email_not_verified, email_delivery, profile_not_found, Result, ok, err,
  Action, Env, from, attempt, or_error, pure, modify, raise_if, statement, rolled_back, ◌>>=◌, ◌>>◌,
}
use guestbook.Store.{User, is_null}
use guestbook.Auth.Rows.{
  RefreshToken, EmailVerificationToken, Mail, Accounts, LoginRequest, UserProfileUpdateRequest,
  ChangePasswordRequest, TokenPair, AuthService, Libraries, is_active_user, sanitize,
}
use guestbook.Auth.Repo.{
  get_user_by_id, get_user_by_email, email_exists_for, update_user, update_password,
  revoke_all_for_user, invalidate_action_tokens, insert_action_token, consume_action_token,
  invalidate_verifications, insert_verification, consume_verification,
}
use guestbook.Auth.Tokens.{
  second, of_result, create_refresh_token, validate, revoke, revoke_all_user_tokens,
  generate_access_token, generate_token_pair,
}

-- A signed-in user and the tokens.
abbrev pub Session : Type 0
Session = User × TokenPair

-- What `Login`, `VerifyEmail` and `ConsumeMagicLink` end with.
unfoldable pub start_session : AuthService → Env → User → String → Action Accounts Session
unfolding create_refresh_token generate_token_pair
start_session a v user device = do
  pair ← generate_token_pair a.libraries a.jwt v user.id user.email
  raw ← create_refresh_token a.libraries (from 2 v) user.id device
  pure (sanitize user, record pair { refresh_token = raw })

-- `Login`
unfoldable pub login : AuthService → Env → LoginRequest → Action Accounts Session
unfolding start_session get_user_by_email
login a v req = do
  user ← or_error (get_user_by_email (v.down 0) req.email) invalid_credentials
  raise_if (not (is_active_user user)) user_inactive
  raise_if (not (a.libraries.bcrypt_matches req.password user.password_hash)) invalid_credentials
  raise_if (a.verify_email_enabled && is_null user.email_verified_at) email_not_verified
  start_session a (from 1 v) user "default"

abbrev pub token_error : Error → Error
token_error invalid_input = sign_in_token_invalid
token_error e = e

-- `errors.Is(err, domain.ErrInvalidInput)`
abbrev pub invalid_as_token : {A : Type 0} → Action Accounts A → Action Accounts A
invalid_as_token m s =
    let (r, s') = m s in elim r [ ok a ↦ (ok a, s') | err e ↦ (err (token_error e), s') ]

-- `VerifyEmail`, when addresses are verified.
unfoldable pub verify_address : AuthService → Env → String → Action Accounts Session
unfolding start_session get_user_by_id consume_verification
verify_address a v token = do
  raise_if (is_empty (trim_space token)) sign_in_token_invalid
  id ← invalid_as_token (consume_verification v (a.libraries.sha256 token) (v.now 0))
  user ← get_user_by_id (v.down 5) id
  raise_if (not (is_active_user user)) user_inactive
  start_session a (from 6 v) user "email-verification"

-- `VerifyEmail`
unfoldable pub verify_email : AuthService → Env → String → Action Accounts (Option Session)
unfolding verify_address
verify_email a v token s =
    if a.verify_email_enabled
    then (do session ← verify_address a v token; pure (some session)) s
    else (ok none, s)

abbrev pub to_address : Libraries → String → String
to_address c email = c.to_lower (trim_space email)

-- `mailer.Send` and its error.
abbrev pub send_mail : Bool → Mail → Action Accounts (Unit {0})
send_mail down m =
    or_error (statement down (modify (λ s. record s { mails = m ∷ s.mails }))) email_delivery

-- `newVerificationToken`, valid for a day, with the token that it stores the hash of.
abbrev pub new_verification_token : Libraries → Env → ℕ → String → EmailVerificationToken
new_verification_token c v user raw = record {
  id = v.fresh 1;
  user_id = user;
  token_hash = c.sha256 raw;
  expires_at = v.now 0 + 86400 * second;
  used_at = none;
  created_at = v.now 1;
}

-- The rest of `ResendVerification`, for an unverified user.
unfoldable pub resend_to : AuthService → Env → User → Action Accounts (Unit {0})
unfolding invalidate_verifications insert_verification
resend_to a v user = do
  raw ← of_result (a.libraries.random_hex (v.fresh 0))
  rolled_back (do
    statement (v.down 1) (pure tt)
    invalidate_verifications (v.down 2) (v.now 2) user.id
    insert_verification (v.down 3) (new_verification_token a.libraries v user.id raw)
    statement (v.down 4) (pure tt))
  send_mail (v.down 5) (record { recipient = user.email; purpose = "verify_email"; token = raw })

-- A call for the user whom an address names, when one is found and passes the test: otherwise the
-- answer is the same success.
abbrev pub for_user :
    (User → Bool) → (User → Action Accounts (Unit {0})) → Result User → Action Accounts (Unit {0})
for_user test f (ok user) s = if test user then f user s else (ok tt, s)
for_user test f (err e) s = (ok tt, s)

-- `ResendVerification`
unfoldable pub resend_verification : AuthService → Env → String → Action Accounts (Unit {0})
unfolding resend_to get_user_by_email
resend_verification a v email s =
    if a.verify_email_enabled
    then (do
      found ← attempt (get_user_by_email (v.down 0) (to_address a.libraries email))
      for_user (λ u. is_null u.email_verified_at) (resend_to a v) found)
        s
    else (ok tt, s)

-- `newAuthEmailToken` and `createAuthEmailToken`
unfoldable pub create_auth_email_token : Libraries → Env → ℕ → String → ℕ → Action Accounts String
unfolding invalidate_action_tokens insert_action_token
create_auth_email_token c v user purpose lifetime = do
  raw ← of_result (c.random_hex (v.fresh 0))
  rolled_back (do
    statement (v.down 0) (pure tt)
    invalidate_action_tokens (v.down 1) (v.now 1) user purpose
    insert_action_token (v.down 2) (record {
      id = v.fresh 1;
      user_id = user;
      purpose = purpose;
      token_hash = c.sha256 raw;
      expires_at = v.now 0 + lifetime;
      used_at = none;
      created_at = v.now 0;
    })
    statement (v.down 3) (pure tt))
  pure raw

abbrev pub mail_token : AuthService → Env → String → ℕ → User → Action Accounts (Unit {0})
mail_token a v purpose lifetime user = do
  raw ← create_auth_email_token a.libraries v user.id purpose lifetime
  send_mail (v.down 4) (record { recipient = user.email; purpose = purpose; token = raw })

-- `ForgotPassword`: the link is valid for 30 minutes.
unfoldable pub forgot_password : AuthService → Env → String → Action Accounts (Unit {0})
unfolding create_auth_email_token get_user_by_email
forgot_password a v email s =
    if a.verify_email_enabled
    then (do
      found ← attempt (get_user_by_email (v.down 0) (to_address a.libraries email))
      for_user is_active_user (mail_token a (from 1 v) "password_reset" (1800 * second)) found)
        s
    else (ok tt, s)

-- `RequestMagicLink`: the link is valid for 15 minutes.
unfoldable pub request_magic_link : AuthService → Env → String → Action Accounts (Unit {0})
unfolding create_auth_email_token get_user_by_email
request_magic_link a v email s =
    if a.verify_email_enabled
    then (do
      found ← attempt (get_user_by_email (v.down 0) (to_address a.libraries email))
      for_user (λ u. is_active_user u && not (is_null u.email_verified_at))
          (mail_token a (from 1 v) "magic_login" (900 * second)) found)
        s
    else (ok tt, s)

-- `ResetPassword`
unfoldable pub reset_password : AuthService → Env → String → String → Action Accounts (Unit {0})
unfolding consume_action_token update_password revoke_all_for_user
reset_password a v token password = do
  raise_if (not a.verify_email_enabled || is_empty (trim_space token)) sign_in_token_invalid
  hash ← of_result (a.libraries.bcrypt (v.fresh 0) password)
  id ←
      or_error (consume_action_token v (a.libraries.sha256 token) "password_reset" (v.now 0))
        sign_in_token_invalid
  update_password (v.down 4) (v.now 1) id hash
  revoke_all_for_user (v.down 5) (v.now 2) id

-- `ConsumeMagicLink`
unfoldable pub consume_magic_link : AuthService → Env → String → Action Accounts Session
unfolding start_session get_user_by_id consume_action_token
consume_magic_link a v token = do
  raise_if (not a.verify_email_enabled || is_empty (trim_space token)) sign_in_token_invalid
  id ←
      or_error (consume_action_token v (a.libraries.sha256 token) "magic_login" (v.now 0))
        sign_in_token_invalid
  user ← get_user_by_id (v.down 4) id
  raise_if (not (is_active_user user) || a.verify_email_enabled && is_null user.email_verified_at)
      email_not_verified
  start_session a (from 5 v) user "magic-link"

-- `Logout`
unfoldable pub logout : Env → ℕ → ℕ → Action Accounts (Unit {0})
unfolding revoke
logout v user token_id = revoke v token_id user

-- `Refresh` after the token.
unfoldable pub refresh_session : AuthService → Env → RefreshToken → Action Accounts TokenPair
unfolding revoke create_refresh_token get_user_by_id generate_access_token
refresh_session a v stored = do
  user ← get_user_by_id (v.down 1) stored.user_id
  access ← of_result (generate_access_token a.libraries a.jwt (v.now 1) user.id user.email 0 "")
  revoke (from 2 v) stored.id user.id
  raw ← create_refresh_token a.libraries (from 3 v) user.id "default"
  pure (record { access_token = access; refresh_token = raw; expires_in = 900 })

-- `Refresh`
unfoldable pub refresh : AuthService → Env → String → Action Accounts TokenPair
unfolding validate refresh_session
refresh a v token = do
  stored ← or_error (validate a.libraries v token) sign_in_token_invalid
  refresh_session a v stored

-- `Me`
unfoldable pub me : Env → ℕ → Action Accounts User
unfolding get_user_by_id
me v id = do user ← or_error (get_user_by_id (v.down 0) id) profile_not_found; pure (sanitize user)

-- The check of a changed address in `UpdateProfile`.
abbrev pub check_address : Bool → Bool → String → Action Accounts (Unit {0})
check_address true down email = pure tt
check_address false down email = do
  exists ← email_exists_for down email
  raise_if exists email_exists

-- The user with the fields of the request.
abbrev pub with_profile : ℕ → String → UserProfileUpdateRequest → User → User
with_profile now email req user = record user {
  email = email;
  full_name = trim_space req.full_name;
  phone = opt_text (trim_space req.phone);
  position = opt_text (trim_space req.position);
  bio = opt_text (trim_space req.bio);
  updated_at = now;
}

-- `UpdateProfile`
unfoldable pub update_profile :
    AuthService → Env → ℕ → UserProfileUpdateRequest → Action Accounts User
unfolding get_user_by_id email_exists_for update_user
update_profile a v id req = do
  user ← get_user_by_id (v.down 0) id
  let email = to_address a.libraries req.email
  check_address (str_eq email user.email) (v.down 1) email
  let changed = with_profile (v.now 0) email req user
  update_user (v.down 2) changed
  pure (sanitize changed)

-- `ChangePassword`
unfoldable pub change_password :
    AuthService → Env → ℕ → ChangePasswordRequest → Action Accounts (Unit {0})
unfolding get_user_by_id update_password revoke_all_user_tokens
change_password a v id req = do
  user ← get_user_by_id (v.down 0) id
  raise_if (not (a.libraries.bcrypt_matches req.current_password user.password_hash))
      password_invalid
  hash ← of_result (a.libraries.bcrypt (v.fresh 0) req.new_password)
  update_password (v.down 1) (v.now 0) id hash
  revoke_all_user_tokens (from 2 v) id
