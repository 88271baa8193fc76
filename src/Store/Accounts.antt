-- ===== src/Store/Accounts.antt =====
-- The structs of internal/domain/tenant.go, user.go and plan.go, with the fields of `Base` among
-- their own, and their status texts. A JSON document that the services hand on unread is a text.
use guestbook.Prelude.{ℕ, ℤ, String, Bool, true, false, Option, is_empty}

pub data TenantStatus : Type 0 where
  trial active suspended cancelled : TenantStatus
  other : String → TenantStatus

pub data SubscriptionStatus : Type 0 where
  active expired cancelled pending : SubscriptionStatus
  other : String → SubscriptionStatus

pub data PaymentStatus : Type 0 where
  pending success failed expired refunded cancelled : PaymentStatus
  other : String → PaymentStatus

pub record Tenant : Type 0 where
  pub id : ℕ
  pub created_at : ℕ
  pub updated_at : ℕ
  pub deleted_at : Option ℕ
  pub name : String
  pub slug : String
  pub description : Option String
  pub logo_url : Option String
  pub primary_color : String
  pub settings : Option String
  pub status : TenantStatus
  pub trial_ends_at : Option ℕ

pub record User : Type 0 where
  pub id : ℕ
  pub created_at : ℕ
  pub updated_at : ℕ
  pub deleted_at : Option ℕ
  pub email : String
  pub password_hash : String
  pub full_name : String
  pub phone : Option String
  pub position : Option String
  pub bio : Option String
  pub avatar_url : Option String
  pub email_verified_at : Option ℕ
  pub mfa_enabled : Bool
  pub mfa_secret : Option String
  pub status : String

pub record PlanFeatures : Type 0 where
  pub whatsapp_campaign : Bool
  pub custom_template : Bool
  pub webhook : Bool
  pub advanced_reports : Bool
  pub remove_branding : Bool
  pub priority_support : Bool

pub record Plan : Type 0 where
  pub id : ℕ
  pub name : String
  pub display_name : String
  pub billing_cycle : String
  pub price_idr : ℤ
  pub max_guests : Option ℤ
  pub max_events : Option ℤ
  pub max_team_members : Option ℤ
  pub max_campaigns_per_month : Option ℤ
  pub max_csv_import_rows : Option ℤ
  pub features : PlanFeatures
  pub is_active : Bool
  pub sort_order : ℤ
  pub created_at : ℕ
  pub updated_at : ℕ

pub record Subscription : Type 0 where
  pub id : ℕ
  pub tenant_id : ℕ
  pub plan_id : ℕ
  pub status : SubscriptionStatus
  pub billing_cycle : String
  pub started_at : ℕ
  pub expires_at : Option ℕ
  pub cancelled_at : Option ℕ
  pub midtrans_order_id : Option String
  pub midtrans_transaction_id : Option String
  pub created_at : ℕ
  pub updated_at : ℕ

pub record Payment : Type 0 where
  pub id : ℕ
  pub tenant_id : ℕ
  pub subscription_id : Option ℕ
  pub plan_id : ℕ
  pub midtrans_order_id : String
  pub midtrans_transaction_id : Option String
  pub amount_idr : ℤ
  pub billing_cycle : String
  pub status : PaymentStatus
  pub payment_method : Option String
  pub va_number : Option String
  pub paid_at : Option ℕ
  pub expired_at : Option ℕ
  pub raw_notification : String
  pub created_at : ℕ
  pub updated_at : ℕ

-- `== domain.TenantStatusTrial`
abbrev pub is_trial : TenantStatus → Bool
is_trial TenantStatus.trial = true
is_trial _ = false

-- `status IN ('trial', 'active')`, and `Tenant.IsActive`
abbrev pub is_in_use : TenantStatus → Bool
is_in_use TenantStatus.trial = true
is_in_use TenantStatus.active = true
is_in_use _ = false

-- `NULLIF(:status, '')` is null.
abbrev pub is_blank_tenant_status : TenantStatus → Bool
is_blank_tenant_status (TenantStatus.other s) = is_empty s
is_blank_tenant_status _ = false

-- `== domain.SubscriptionStatusActive`
abbrev pub is_current : SubscriptionStatus → Bool
is_current SubscriptionStatus.active = true
is_current _ = false

-- `== domain.PaymentStatusSuccess`
abbrev pub is_paid : PaymentStatus → Bool
is_paid PaymentStatus.success = true
is_paid _ = false
