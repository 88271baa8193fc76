-- ===== src/Auth/Tokens.antt =====
-- internal/auth/refresh.go, and the tokens that internal/auth/jwt.go generates. A call of
-- `uuid.New` takes the next identifier of the environment, a statement and a reading of the clock
-- the next place.
use guestbook.Prelude.{
  ℕ, ◌+◌, ◌*◌, ◌/◌, ltb, ℤ, pos, pos_part, ltb_ℤ, String, Bool, not, Option, none, some, ◌∷◌,
  if◌then◌else◌, find_first, any, update_if,
}
use guestbook.Action.{
  invalid_token, token_expired, unspecified, Result, ok, err, Action, Env, pure, modify, or_raise,
  raise_if, statement, rolled_back, ◌>>=◌, ◌>>◌,
}
use guestbook.Store.{is_null}
use guestbook.Auth.Rows.{RefreshToken, Accounts, TokenPair, JwtService, Libraries}
use guestbook.Auth.Repo.{has_hash, is_live_token, is_live_of, revoked}

-- A second, in nanoseconds.
abbrev pub second : ℕ
second = 1000000000

-- Seven days.
abbrev pub session_length : ℕ
session_length = 604800 * second

-- The token that is handed out.
abbrev pub raw_token : Libraries → Env → String
raw_token c v = c.join (c.uuid_text (v.fresh 0)) "/" (c.uuid_text (v.fresh 1))

-- The row of a new refresh token.
abbrev pub new_refresh_token : Libraries → Env → ℕ → String → RefreshToken
new_refresh_token c v user device = record {
  id = v.fresh 2;
  user_id = user;
  token_hash = c.sha256 (raw_token c v);
  expires_at = v.now 0 + session_length;
  revoked_at = none;
  revoked_by = none;
  device_info = some device;
  created_at = v.now 1;
}

-- The INSERT of a refresh token.
abbrev pub insert_refresh_token : Bool → RefreshToken → Action Accounts (Unit {0})
insert_refresh_token down t =
    statement down (modify (λ s. record s { refresh_tokens = t ∷ s.refresh_tokens }))

-- `create`, which `Create` and `CreateWithExecutor` call: the token to hand out.
unfoldable pub create_refresh_token : Libraries → Env → ℕ → String → Action Accounts String
create_refresh_token c v user device = do
  insert_refresh_token (v.down 0) (new_refresh_token c v user device)
  pure (raw_token c v)

unfoldable pub find_refresh_token : String → Accounts → Option RefreshToken
find_refresh_token hash s = find_first (has_hash hash) s.refresh_tokens

-- `Validate`
unfoldable pub validate : Libraries → Env → String → Action Accounts RefreshToken
validate c v token = do
  found ←
      statement (v.down 0) (λ s. or_raise (find_refresh_token (c.sha256 token) s) invalid_token s)
  raise_if (not (is_null found.revoked_at)) invalid_token
  raise_if (not (ltb (v.now 0) found.expires_at)) token_expired
  pure found

-- `Revoke`: no live row is an error.
unfoldable pub revoke : Env → ℕ → ℕ → Action Accounts (Unit {0})
revoke v id by = statement (v.down 0) (λ s.
    if any (is_live_token id) s.refresh_tokens
    then (
      ok tt,
      record s {
        refresh_tokens =
            update_if (is_live_token id) (revoked (v.now 0) (some by)) s.refresh_tokens;
      },
    )
    else (err (unspecified "token already revoked or not found"), s))

-- `RevokeAllUserTokens`
unfoldable pub revoke_all_user_tokens : Env → ℕ → Action Accounts (Unit {0})
revoke_all_user_tokens v user = statement (v.down 0) (
    modify (λ s. record s {
      refresh_tokens = update_if (is_live_of user) (revoked (v.now 0) (some user)) s.refresh_tokens;
    }))

-- `Rotate`: statement 0 is the lookup, 1 to 4 are the begin, the update, the insert and the commit.
-- Unlike `Revoke`, the update may find no live row.
unfoldable pub rotate : Libraries → Env → String → String → Action Accounts String
unfolding validate
rotate c v old device = do
  stored ← validate c v old
  rolled_back (do
    statement (v.down 1) (pure tt)
    statement (v.down 2) (
        modify (λ s. record s {
          refresh_tokens =
              update_if (is_live_token stored.id) (revoked (v.now 1) (some stored.user_id))
                s.refresh_tokens;
        }))
    insert_refresh_token (v.down 3) (record (new_refresh_token c v stored.user_id device) {
      expires_at = v.now 2 + session_length;
      created_at = v.now 3;
    })
    statement (v.down 4) (pure tt)
    pure (raw_token c v))

-- `if ttl <= 0 { ttl = default }`
abbrev ttl_or : ℤ → ℕ → ℕ
ttl_or ttl default = if ltb_ℤ (pos 0) ttl then pos_part ttl else default

-- `NewJWTService`: by default 15 minutes and seven days.
unfoldable pub new_jwt_service : String → String → ℤ → ℤ → JwtService
new_jwt_service access_secret refresh_secret access_ttl refresh_ttl = record {
  access_secret = access_secret;
  refresh_secret = refresh_secret;
  access_ttl = ttl_or access_ttl (900 * second);
  refresh_ttl = ttl_or refresh_ttl session_length;
  issuer = "guestflow";
}

abbrev pub of_result : {A : Type 0} → Result A → Action Accounts A
of_result r s = (r, s)

-- `GenerateAccessToken`
unfoldable pub generate_access_token :
    Libraries → JwtService → ℕ → ℕ → String → ℕ → String → Result String
generate_access_token c j now user email tenant role = c.sign j.access_secret (record {
  user_id = user;
  email = email;
  tenant_id = tenant;
  role = role;
  expires_at = now + j.access_ttl;
  issued_at = now;
  not_before = now;
  issuer = j.issuer;
  subject = c.uuid_text user;
  id = none;
})

-- `generateRefreshToken`
unfoldable pub generate_refresh_token : Libraries → JwtService → ℕ → ℕ → ℕ → String → Result String
generate_refresh_token c j now fresh user email = c.sign j.refresh_secret (record {
  user_id = user;
  email = email;
  tenant_id = 0;
  role = "";
  expires_at = now + j.refresh_ttl;
  issued_at = now;
  not_before = now;
  issuer = j.issuer;
  subject = c.uuid_text user;
  id = some (c.uuid_text fresh);
})

-- `GenerateTokenPair`
unfoldable pub generate_token_pair :
    Libraries → JwtService → Env → ℕ → String → Action Accounts TokenPair
unfolding generate_access_token generate_refresh_token
generate_token_pair c j v user email = do
  access ← of_result (generate_access_token c j (v.now 0) user email 0 "")
  refresh ← of_result (generate_refresh_token c j (v.now 1) (v.fresh 0) user email)
  pure (record {
    access_token = access;
    refresh_token = refresh;
    expires_in = j.access_ttl / second;
  })
