-- ===== src/Auth/Repo.antt =====
-- The statements of internal/repository/user_repository.go, refresh_token_repository.go,
-- email_verification_repository.go and auth_email_token_repository.go.
use guestbook.Prelude.{
  ℕ, ltb, ◌==◌, String, str_eq, Bool, not, ◌&&◌, ◌||◌, Option, none, some, ◌∷◌, if◌then◌else◌,
  find_first, any, update_if,
}
use guestbook.Action.{
  Error, user_not_found, invalid_input, unspecified, ok, err, Action, Env, gets, pure, modify,
  or_raise, raise_if, statement, rolled_back, ◌>>=◌, ◌>>◌,
}
use guestbook.Store.{User, is_null}
use guestbook.Auth.Rows.{RefreshToken, EmailVerificationToken, AuthEmailToken, Accounts}

abbrev pub is_user : ℕ → User → Bool
is_user id u = u.id == id && is_null u.deleted_at

unfoldable pub find_user_by_id : ℕ → Accounts → Option User
find_user_by_id id s = find_first (is_user id) s.users

unfoldable pub find_user_by_email : String → Accounts → Option User
find_user_by_email email s = find_first (λ u. str_eq u.email email && is_null u.deleted_at) s.users

-- `UserRepository.GetByID`
unfoldable pub get_user_by_id : Bool → ℕ → Action Accounts User
get_user_by_id down id = statement down (λ s. or_raise (find_user_by_id id s) user_not_found s)

-- `UserRepository.GetByEmail`
unfoldable pub get_user_by_email : Bool → String → Action Accounts User
get_user_by_email down email =
    statement down (λ s. or_raise (find_user_by_email email s) user_not_found s)

-- `UserRepository.EmailExists`
unfoldable pub email_exists_for : Bool → String → Action Accounts Bool
email_exists_for down email =
    statement down (gets (λ s. any (λ u. str_eq u.email email && is_null u.deleted_at) s.users))

-- An UPDATE of a user's row; no row is an error.
abbrev pub update_users : Bool → ℕ → (User → User) → Error → Action Accounts (Unit {0})
update_users down id f e = statement down (λ s.
    if any (is_user id) s.users
    then (ok tt, record s { users = update_if (is_user id) f s.users })
    else (err e, s))

-- `UserRepository.Update`: the columns of its SET list.
unfoldable pub update_user : Bool → User → Action Accounts (Unit {0})
update_user down u =
    update_users down u.id
      (λ r. record r {
        email = u.email;
        password_hash = u.password_hash;
        full_name = u.full_name;
        phone = u.phone;
        position = u.position;
        bio = u.bio;
        avatar_url = u.avatar_url;
        email_verified_at = u.email_verified_at;
        mfa_enabled = u.mfa_enabled;
        status = u.status;
        updated_at = u.updated_at;
      })
      (unspecified "user not found or already deleted")

-- `UserRepository.UpdatePassword`
unfoldable pub update_password : Bool → ℕ → ℕ → String → Action Accounts (Unit {0})
update_password down now id hash =
    update_users down id (λ r. record r { password_hash = hash; updated_at = now }) user_not_found

abbrev pub has_hash : String → RefreshToken → Bool
has_hash hash t = str_eq t.token_hash hash

-- `revoked_at IS NULL`, for a row addressed by its id and one by its user.
abbrev pub is_live_token : ℕ → RefreshToken → Bool
is_live_token id t = t.id == id && is_null t.revoked_at

abbrev pub is_live_of : ℕ → RefreshToken → Bool
is_live_of user t = t.user_id == user && is_null t.revoked_at

abbrev pub revoked : ℕ → Option ℕ → RefreshToken → RefreshToken
revoked now by t = record t { revoked_at = some now; revoked_by = by }

-- `RefreshTokenRepository.RevokeAllForUser`
unfoldable pub revoke_all_for_user : Bool → ℕ → ℕ → Action Accounts (Unit {0})
revoke_all_for_user down now user = statement down (
    modify (λ s. record s {
      refresh_tokens = update_if (is_live_of user) (revoked now none) s.refresh_tokens;
    }))

abbrev pub is_action_token : String → String → AuthEmailToken → Bool
is_action_token hash purpose t = str_eq t.token_hash hash && str_eq t.purpose purpose

-- `AuthEmailTokenRepository.InvalidateActive`; `now` is the database's clock.
unfoldable pub invalidate_action_tokens : Bool → ℕ → ℕ → String → Action Accounts (Unit {0})
invalidate_action_tokens down now user purpose = statement down (
    modify (λ s. record s {
      action_tokens =
          update_if (λ t. t.user_id == user && (str_eq t.purpose purpose && is_null t.used_at))
            (λ t. record t { used_at = some now }) s.action_tokens;
    }))

-- `AuthEmailTokenRepository.Create`
unfoldable pub insert_action_token : Bool → AuthEmailToken → Action Accounts (Unit {0})
insert_action_token down t =
    statement down (modify (λ s. record s { action_tokens = t ∷ s.action_tokens }))

-- `token.UsedAt != nil || !token.ExpiresAt.After(now)`
abbrev pub is_spent : Option ℕ → ℕ → ℕ → Bool
is_spent used expires now = not (is_null used) || not (ltb now expires)

-- `AuthEmailTokenRepository.Consume`: statements 0 to 3 are the begin, the row, its update and the
-- commit.
unfoldable pub consume_action_token : Env → String → String → ℕ → Action Accounts ℕ
consume_action_token v hash purpose now = rolled_back (do
  statement (v.down 0) (pure tt)
  token ←
      statement (v.down 1)
        (λ s. or_raise (find_first (is_action_token hash purpose) s.action_tokens) invalid_input s)
  raise_if (is_spent token.used_at token.expires_at now) invalid_input
  statement (v.down 2) (
      modify (λ s. record s {
        action_tokens =
            update_if (λ t. t.id == token.id) (λ t. record t { used_at = some now })
              s.action_tokens;
      }))
  statement (v.down 3) (pure tt)
  pure token.user_id)

-- `EmailVerificationRepository.InvalidateActive`
unfoldable pub invalidate_verifications : Bool → ℕ → ℕ → Action Accounts (Unit {0})
invalidate_verifications down now user = statement down (
    modify (λ s. record s {
      verifications =
          update_if (λ t. t.user_id == user && is_null t.used_at)
            (λ t. record t { used_at = some now }) s.verifications;
    }))

-- `EmailVerificationRepository.Create`
unfoldable pub insert_verification : Bool → EmailVerificationToken → Action Accounts (Unit {0})
insert_verification down t =
    statement down (modify (λ s. record s { verifications = t ∷ s.verifications }))

-- `EmailVerificationRepository.Consume`
unfoldable pub consume_verification : Env → String → ℕ → Action Accounts ℕ
consume_verification v hash now = rolled_back (do
  statement (v.down 0) (pure tt)
  token ←
      statement (v.down 1)
        (λ s. or_raise (find_first (λ t. str_eq t.token_hash hash) s.verifications) invalid_input s)
  raise_if (is_spent token.used_at token.expires_at now) invalid_input
  statement (v.down 2) (
      modify (λ s. record s {
        users =
            update_if (is_user token.user_id)
              (λ u. record u { email_verified_at = some now; updated_at = now }) s.users;
      }))
  statement (v.down 3) (
      modify (λ s. record s {
        verifications =
            update_if (λ t. t.id == token.id) (λ t. record t { used_at = some now })
              s.verifications;
      }))
  statement (v.down 4) (pure tt)
  pure token.user_id)
