-- ===== src/Auth/Rows.antt =====
-- The structs of internal/domain/token.go, email_verification.go, auth_email_token.go and
-- tenant.go, the requests of internal/domain/user.go, and the tables that sign-in uses. A mail is
-- its recipient, its purpose and the token in its link; its wording is left out.
use guestbook.Prelude.{ℕ, String, str_eq, Bool, ◌&&◌, Option, none, List}
use guestbook.Action.{Result}
use guestbook.Store.{Tenant, User, is_null}

pub record RefreshToken : Type 0 where
  pub id : ℕ
  pub user_id : ℕ
  pub token_hash : String
  pub expires_at : ℕ
  pub revoked_at : Option ℕ
  pub revoked_by : Option ℕ
  pub device_info : Option String
  pub created_at : ℕ

pub record EmailVerificationToken : Type 0 where
  pub id : ℕ
  pub user_id : ℕ
  pub token_hash : String
  pub expires_at : ℕ
  pub used_at : Option ℕ
  pub created_at : ℕ

pub record AuthEmailToken : Type 0 where
  pub id : ℕ
  pub user_id : ℕ
  pub purpose : String
  pub token_hash : String
  pub expires_at : ℕ
  pub used_at : Option ℕ
  pub created_at : ℕ

pub record TenantMembership : Type 0 where
  pub id : ℕ
  pub created_at : ℕ
  pub updated_at : ℕ
  pub tenant_id : ℕ
  pub user_id : ℕ
  pub role : String
  pub invited_by : Option ℕ
  pub invited_at : Option ℕ
  pub joined_at : Option ℕ
  pub status : String

pub record Mail : Type 0 where
  pub recipient : String
  pub purpose : String
  pub token : String

pub record Accounts : Type 0 where
  pub users : List User
  pub tenants : List Tenant
  pub members : List TenantMembership
  pub refresh_tokens : List RefreshToken
  pub verifications : List EmailVerificationToken
  pub action_tokens : List AuthEmailToken
  pub mails : List Mail

pub record RegisterRequest : Type 0 where
  pub email : String
  pub password : String
  pub full_name : String
  pub phone : String
  pub tenant_name : String

pub record LoginRequest : Type 0 where
  pub email : String
  pub password : String

pub record UserProfileUpdateRequest : Type 0 where
  pub email : String
  pub full_name : String
  pub phone : String
  pub position : String
  pub bio : String

pub record ChangePasswordRequest : Type 0 where
  pub current_password : String
  pub new_password : String

-- The claims of a signed token: `auth.Claims` with the registered ones that the code sets.
pub record Claims : Type 0 where
  pub user_id : ℕ
  pub email : String
  pub tenant_id : ℕ
  pub role : String
  pub expires_at : ℕ
  pub issued_at : ℕ
  pub not_before : ℕ
  pub issuer : String
  pub subject : String
  pub id : Option String

pub record TokenPair : Type 0 where
  pub access_token : String
  pub refresh_token : String
  pub expires_in : ℕ

-- `auth.JWTService`
pub record JwtService : Type 0 where
  pub access_secret : String
  pub refresh_secret : String
  pub access_ttl : ℕ
  pub refresh_ttl : ℕ
  pub issuer : String

-- What the code calls in other libraries: SHA-256 in hexadecimal, bcrypt (salted by what is drawn;
-- it refuses long passwords), the signature of a token, a UUID's text and a part of it, 32 random
-- bytes in hexadecimal (drawing them may fail), `strings.ToLower`, and `AddDate(0, 0, 14)`.
pub record Libraries : Type 0 where
  pub sha256 : String → String
  pub bcrypt : ℕ → String → Result String
  pub bcrypt_matches : String → String → Bool
  pub sign : String → Claims → Result String
  pub uuid_text : ℕ → String
  pub uuid_prefix : ℕ → String
  pub join : String → String → String → String
  pub random_hex : ℕ → Result String
  pub to_lower : String → String
  pub after_trial : ℕ → ℕ

-- The service's configuration, as the server builds it.
pub record AuthService : Type 0 where
  pub libraries : Libraries
  pub jwt : JwtService
  pub verify_email_enabled : Bool

-- `User.IsActive`
abbrev pub is_active_user : User → Bool
is_active_user u = str_eq u.status "active" && is_null u.deleted_at

-- `User.Sanitize`
abbrev pub sanitize : User → User
sanitize u = record u { password_hash = ""; mfa_secret = none }
