-- ===== src/Auth/Tests.antt =====
-- Accounts and sessions of one user.
use guestbook.Prelude.{
  trim_space, ◌+◌, str_eq, ◌≡◌, refl, ap, subst, true, false, none, some, List, [], ◌∷◌, arith,
  count_if, find_first, any, update_if, ◌&&◌,
}
use guestbook.Action.{
  Error, from, ok, err, sign_in_token_invalid, invalid_credentials, email_not_verified,
}
use guestbook.Samples.{quiet, owner_user, small_tenant}
use guestbook.Store.{User, is_null}
use guestbook.Auth.Rows.{
  RefreshToken, AuthEmailToken, Accounts, AuthService, TokenPair, Libraries, LoginRequest,
  ChangePasswordRequest, is_active_user, sanitize,
}
use guestbook.Auth.Repo.{find_user_by_id, find_user_by_email}
use guestbook.Auth.Tokens.{new_refresh_token, find_refresh_token}
use guestbook.Auth.Service.{login, refresh, reset_password, change_password, to_address}
use guestbook.Auth.Register.{slugify}
use guestbook.Auth.Requests.{Request, serve_all, signing_in, forgetting}
use guestbook.Auth.Used.{IsNew}
use guestbook.Auth.Once.{refresh_once, change_password-refresh}
use guestbook.Auth.Links.{reset_password_once}
use guestbook.Auth.Gate.{login_gate}
use guestbook.Auth.Slug.{letters, IsSlug, slugify-IsSlug}

-- Libraries that hash nothing and draw the same tokens again and again.
abbrev sample_libraries : Libraries
sample_libraries = record {
  sha256 = λ s. s;
  bcrypt = λ k s. ok s;
  bcrypt_matches = str_eq;
  sign = λ secret claims. ok "jwt";
  uuid_text = λ k. "id";
  uuid_prefix = λ k. "00000009";
  join = λ s t u. "new";
  random_hex = λ k. ok "link";
  to_lower = λ s. s;
  after_trial = λ t. t + 14;
}

abbrev sample_service : AuthService
sample_service = record {
  libraries = sample_libraries;
  jwt = record {
    access_secret = "a";
    refresh_secret = "r";
    access_ttl = 900000000000;
    refresh_ttl = 604800000000000;
    issuer = "guestflow";
  };
  verify_email_enabled = true;
}

abbrev verified_user : User
verified_user = record owner_user { email_verified_at = some 5 }

abbrev old_session : RefreshToken
old_session = record {
  id = 61;
  user_id = 9;
  token_hash = "old";
  expires_at = 500;
  revoked_at = none;
  revoked_by = none;
  device_info = none;
  created_at = 2;
}

abbrev reset_link : AuthEmailToken
reset_link = record {
  id = 62;
  user_id = 9;
  purpose = "password_reset";
  token_hash = "reset";
  expires_at = 500;
  used_at = none;
  created_at = 2;
}

abbrev sample_accounts : Accounts
sample_accounts = record {
  users = verified_user ∷ [];
  tenants = small_tenant ∷ [];
  members = [];
  refresh_tokens = old_session ∷ [];
  verifications = [];
  action_tokens = reset_link ∷ [];
  mails = [];
}

abbrev sign_in : LoginRequest
sign_in = record { email = "owner@acara.id"; password = "secret" }

abbrev later_calls : List Request
later_calls =
    record { env = quiet; call = signing_in sign_in }
    ∷ record { env = quiet; call = forgetting "owner@acara.id" }
    ∷ []

abbrev refreshed : TokenPair
refreshed = record { access_token = "jwt"; refresh_token = "new"; expires_in = 900 }

abbrev after_refresh : Accounts
after_refresh =
    serve_all sample_service later_calls (refresh sample_service quiet "old" sample_accounts).1

refresh_once_example :
    refresh sample_service quiet "old" after_refresh ≡ (err sign_in_token_invalid, after_refresh)
unfolding refresh find_refresh_token find_user_by_id find_first any update_if count_if
refresh_once_example =
    refresh_once sample_service quiet quiet "old" sample_accounts refreshed later_calls
      (omega arith) (λ k. refl) (λ k. refl, (λ k. refl, tt)) refl

abbrev new_password : ChangePasswordRequest
new_password = record { current_password = "secret"; new_password = "safer" }

abbrev after_change : Accounts
after_change =
    serve_all sample_service later_calls
      (change_password sample_service quiet 9 new_password sample_accounts).1

change_password-refresh_example :
    refresh sample_service quiet "old" after_change ≡ (err sign_in_token_invalid, after_change)
unfolding change_password find_user_by_id find_first any update_if
change_password-refresh_example =
    change_password-refresh sample_service quiet quiet 9 new_password "old" sample_accounts
      later_calls ((λ h. refl), tt) (λ k. refl, (λ k. refl, tt)) refl

abbrev after_reset : Accounts
after_reset =
    serve_all sample_service later_calls
      (reset_password sample_service quiet "reset" "safer" sample_accounts).1

drawn_link-IsNew : IsNew sample_libraries "reset" quiet
drawn_link-IsNew k raw h =
    subst (λ r. str_eq r "reset" ≡ false) (ap (λ r. elim r [ ok x ↦ x | err e ↦ "" ]) h) refl

reset_password_once_example :
    (e : Error) × (reset_password sample_service quiet "reset" "best" after_reset
      ≡ (err e, after_reset))
unfolding reset_password find_first any update_if count_if trim_space
reset_password_once_example =
    reset_password_once sample_service quiet quiet "reset" "safer" "best" sample_accounts
      later_calls (omega arith) (drawn_link-IsNew, (drawn_link-IsNew, tt)) refl

login_gate_example :
    (u : User) × (find_user_by_email "owner@acara.id" sample_accounts ≡ some u)
    × (is_active_user u ≡ true)
    × (str_eq "secret" u.password_hash ≡ true)
    × ((true && is_null u.email_verified_at) ≡ false)
    × (sanitize verified_user ≡ sanitize u)
    × ((login sample_service quiet sign_in sample_accounts).1 ≡ record sample_accounts {
      refresh_tokens =
          new_refresh_token sample_libraries (from 3 quiet) u.id "default" ∷ old_session ∷ [];
    })
unfolding login find_user_by_email find_first
login_gate_example =
    login_gate sample_service quiet sign_in sample_accounts
      (
        sanitize verified_user,
        record { access_token = "jwt"; refresh_token = "new"; expires_in = 900 },
      )
      refl

slugify-IsSlug_example :
    IsSlug (slugify sample_libraries " mm  7--")
    × (letters (slugify sample_libraries " mm  7--")
        ≡ letters (to_address sample_libraries " mm  7--"))
slugify-IsSlug_example = slugify-IsSlug sample_libraries " mm  7--"

slug_of_name : slugify sample_libraries " mm  7--" ≡ "mm-7"
unfolding slugify trim_space
slug_of_name = refl

-- A wrong password is refused, and so is an address that is not verified.
wrong_password :
    (login sample_service quiet (record sign_in { password = "x" }) sample_accounts).0
    ≡ err invalid_credentials
unfolding login find_user_by_email find_first
wrong_password = refl

not_verified :
    (login sample_service quiet sign_in (record sample_accounts { users = owner_user ∷ [] })).0
    ≡ err email_not_verified
unfolding login find_user_by_email find_first
not_verified = refl
