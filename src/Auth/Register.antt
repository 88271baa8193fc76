-- ===== src/Auth/Register.antt =====
-- `Register` of internal/service/auth_service.go, with `NewTenant` and `NewTenantMembership` of
-- internal/domain/tenant.go.
use guestbook.Prelude.{
  ℕ, ◌==◌, leb, String, is_empty, opt_text, trim_space, Bool, true, false, not, ◌&&◌, ◌||◌, Option,
  none, some, ◌∷◌, if◌then◌else◌,
}
use guestbook.Action.{
  email_exists, ok, Action, Env, from, pure, modify, raise_if, statement, rolled_back, ◌>>=◌, ◌>>◌,
}
use guestbook.Store.{TenantStatus, Tenant, User}
use guestbook.Auth.Rows.{
  TenantMembership, Accounts, RegisterRequest, TokenPair, AuthService, Libraries, sanitize,
}
use guestbook.Auth.Repo.{email_exists_for, insert_verification}
use guestbook.Auth.Tokens.{of_result, create_refresh_token, generate_token_pair}
use guestbook.Auth.Service.{to_address, new_verification_token, send_mail}
use Prim.Native.Char.{Char, code}

-- `(r >= 'a' && r <= 'z') || (r >= '0' && r <= '9')`
abbrev pub is_slug_char : Char → Bool
is_slug_char ch = let c = code ch in leb b'a' c && leb c b'z' || leb b'0' c && leb c b'9'

-- The loop of `slugifyRegistrationValue` over the characters that are left: `started` says that
-- the builder is not empty, `last_dash` that it ends in a dash put there.
unfoldable pub slug_loop : Bool → Bool → String → String
slug_loop started last_dash String.[] = String.[]
slug_loop started last_dash (String.◌∷◌ c s) =
    let word = String.◌∷◌ c (slug_loop true false s) in
    let dash = String.◌∷◌ "-" (slug_loop true true s) in
    let skip = slug_loop started last_dash s in
    if is_slug_char c then word else if started && not last_dash then dash else skip

unfoldable pub is_dash : Char → Bool
is_dash ch = code ch == b'-'

-- `strings.Trim(s, "-")`
unfoldable pub trim_dashes_left : String → String
unfolding is_dash
trim_dashes_left String.[] = String.[]
trim_dashes_left (String.◌∷◌ c s) =
    let rest = trim_dashes_left s in if is_dash c then rest else String.◌∷◌ c s

unfoldable pub trim_dashes_right : String → String
unfolding is_dash
trim_dashes_right String.[] = String.[]
trim_dashes_right (String.◌∷◌ c s) =
    let rest = trim_dashes_right s in
    if is_dash c && is_empty rest then String.[] else String.◌∷◌ c rest

-- `slugifyRegistrationValue`
unfoldable pub slugify : Libraries → String → String
unfolding slug_loop trim_dashes_left trim_dashes_right
slugify c value = trim_dashes_right (trim_dashes_left (slug_loop false false (to_address c value)))

-- `if s == "" { s = default }`
abbrev or_default : String → String → String
or_default s default = if is_empty s then default else s

-- `newRegistrationTenant`, with `NewTenant`: the clock is read for the end of the trial and for the
-- row's times.
unfoldable pub new_registration_tenant : Libraries → Env → ℕ → RegisterRequest → Tenant
unfolding slugify
new_registration_tenant c v user req =
    let name = or_default req.tenant_name (c.join req.full_name " " "Workspace") in
    let slug = c.join (or_default (slugify c name) "workspace") "-" (c.uuid_prefix user) in
    record {
      id = v.fresh 0;
      created_at = v.now 1;
      updated_at = v.now 1;
      deleted_at = none;
      name = name;
      slug = slug;
      description = none;
      logo_url = none;
      primary_color = "#3B82F6";
      settings = some "{}";
      status = TenantStatus.trial;
      trial_ends_at = some (c.after_trial (v.now 0));
    }

-- `NewTenantMembership` for an owner whom nobody invited, with the `JoinedAt` that `Register` sets.
abbrev pub owner_membership : Env → ℕ → ℕ → TenantMembership
owner_membership v tenant user = record {
  id = v.fresh 0;
  created_at = v.now 0;
  updated_at = v.now 0;
  tenant_id = tenant;
  user_id = user;
  role = "tenant_owner";
  invited_by = none;
  invited_at = none;
  joined_at = some (v.now 0);
  status = "active";
}

-- The request with the texts that `Register` trims.
abbrev trimmed : Libraries → RegisterRequest → RegisterRequest
trimmed c req = record req {
  email = to_address c req.email;
  full_name = trim_space req.full_name;
  tenant_name = trim_space req.tenant_name;
}

abbrev pub new_user : Env → RegisterRequest → String → User
new_user v req hash = record {
  id = v.fresh 0;
  created_at = v.now 0;
  updated_at = v.now 0;
  deleted_at = none;
  email = req.email;
  password_hash = hash;
  full_name = req.full_name;
  phone = opt_text req.phone;
  position = none;
  bio = none;
  avatar_url = none;
  email_verified_at = none;
  mfa_enabled = false;
  mfa_secret = none;
  status = "active";
}

-- `if s.verifyEmailEnabled { newVerificationToken }`
abbrev drawn_token : AuthService → Env → Action Accounts String
drawn_token a v =
    if a.verify_email_enabled then of_result (a.libraries.random_hex (v.fresh 0)) else pure ""

-- The token that the transaction stores last: a verification token, or a session.
unfoldable pub first_token : AuthService → Env → User → String → Action Accounts (Option TokenPair)
unfolding insert_verification generate_token_pair create_refresh_token
first_token a v user raw s =
    if a.verify_email_enabled
    then (do
      insert_verification (v.down 0) (new_verification_token a.libraries v user.id raw)
      pure none)
        s
    else (do
      pair ← generate_token_pair a.libraries a.jwt v user.id user.email
      session ← create_refresh_token a.libraries (from 2 v) user.id "default"
      pure (some (record pair { refresh_token = session })))
        s

-- The transaction of `Register`. The INSERT of the user leaves out the columns that are null.
unfoldable pub store_account :
    AuthService
    → Env
    → User
    → Tenant
    → TenantMembership
    → String
    → Action Accounts (Option TokenPair)
unfolding first_token
store_account a v user tenant membership raw = rolled_back (do
  statement (v.down 0) (pure tt)
  statement (v.down 1) (modify (λ s. record s { users = user ∷ s.users }))
  statement (v.down 2) (modify (λ s. record s { tenants = tenant ∷ s.tenants }))
  statement (v.down 3) (modify (λ s. record s { members = membership ∷ s.members }))
  pair ← first_token a (from 4 v) user raw
  statement (v.down 8) (pure tt)
  pure pair)

-- The mail at the end of `Register`.
abbrev welcome : AuthService → Bool → User → String → Action Accounts (Unit {0})
welcome a down user raw s =
    if a.verify_email_enabled
    then send_mail down (record { recipient = user.email; purpose = "verify_email"; token = raw }) s
    else (ok tt, s)

-- `Register`
unfoldable pub register :
    AuthService → Env → RegisterRequest → Action Accounts (User × Tenant × Option TokenPair)
unfolding email_exists_for new_registration_tenant store_account
register a v request = do
  let req = trimmed a.libraries request
  exists ← email_exists_for (v.down 0) req.email
  raise_if exists email_exists
  hash ← of_result (a.libraries.bcrypt (v.fresh 0) req.password)
  let user = new_user (from 1 v) req hash
  raw ← drawn_token a (from 2 v)
  let tenant = new_registration_tenant a.libraries (from 4 v) user.id req
  let membership = owner_membership (from 6 v) tenant.id user.id
  pair ← store_account a (from 7 v) user tenant membership raw
  welcome a (v.down 16) user raw
  pure (sanitize user, tenant, pair)
