-- ===== src/Billing/Repo.antt =====
-- internal/repository/billing_repository.go, and what billing uses of tenant_repository.go and
-- user_repository.go.
use guestbook.Prelude.{
  ℕ, ◌==◌, leb, String, str_eq, Bool, ◌&&◌, Option, none, some, List, [], ◌∷◌, if◌then◌else◌,
  find_first, select, any, update_if, pointer_or, text_or,
}
use guestbook.Action.{
  not_found, tenant_not_found, user_not_found, database, ok, err, Action, modify, statement,
}
use guestbook.Store.{
  Db, Tenant, User, Plan, SubscriptionStatus, Subscription, PaymentStatus, Payment, is_null,
  is_in_use, is_blank_tenant_status, is_current, select_one,
}

unfoldable pub find_plan : ℕ → Db → Option Plan
find_plan id db = find_first (λ p. p.id == id) db.plans

-- `PlanRepository.GetByID`
abbrev pub get_plan : Bool → ℕ → Action Db Plan
get_plan down id = select_one down (find_plan id) not_found

-- The first row in the order of a key, the greatest first: `ORDER BY created_at DESC LIMIT 1`.
abbrev pub latest : List Subscription → Option Subscription
latest [] = none
latest (s ∷ rest) = elim (latest rest) [
  | none ↦ some s
  | some r ↦ if leb r.created_at s.created_at then some s else some r
]

abbrev pub is_current_of : ℕ → Subscription → Bool
is_current_of tenant s = s.tenant_id == tenant && is_current s.status

unfoldable pub find_current : ℕ → Db → Option Subscription
find_current tenant db = latest (select (is_current_of tenant) db.subscriptions)

-- `SubscriptionRepository.GetActiveByTenantID`
abbrev pub get_current : Bool → ℕ → Action Db Subscription
get_current down tenant = select_one down (find_current tenant) not_found

-- `SubscriptionRepository.Create`: an INSERT that leaves `cancelled_at` out.
unfoldable pub insert_subscription : Bool → Subscription → Action Db (Unit {0})
insert_subscription down s = statement down (
    modify
      (λ db. record db { subscriptions = record s { cancelled_at = none } ∷ db.subscriptions }))

-- `SubscriptionRepository.UpdateStatus`; `now` is the database's clock.
unfoldable pub update_subscription_status : Bool → ℕ → ℕ → SubscriptionStatus → Action Db (Unit {0})
update_subscription_status down now id status = statement down (
    modify (λ db. record db {
      subscriptions =
          update_if (λ s. s.id == id) (λ s. record s { status = status; updated_at = now })
            db.subscriptions;
    }))

-- `SubscriptionRepository.ListActive`
unfoldable pub current_subscriptions : Db → List Subscription
current_subscriptions db = select (λ s. is_current s.status) db.subscriptions

-- `SubscriptionRepository.ExpireAllActive`
unfoldable pub expire_all_active : Bool → ℕ → ℕ → Action Db (Unit {0})
expire_all_active down now tenant = statement down (
    modify (λ db. record db {
      subscriptions =
          update_if (is_current_of tenant)
            (λ s. record s { status = SubscriptionStatus.expired; updated_at = now })
            db.subscriptions;
    }))

abbrev pub is_payment_for : String → Payment → Bool
is_payment_for order p = str_eq p.midtrans_order_id order

unfoldable pub find_payment : String → Db → Option Payment
find_payment order db = find_first (is_payment_for order) db.payments

-- `PaymentRepository.GetByMidtransOrderID`
abbrev pub get_payment : Bool → String → Action Db Payment
get_payment down order = select_one down (find_payment order) not_found

-- `PaymentRepository.Create`: an INSERT of eleven columns; the order's id is UNIQUE.
unfoldable pub insert_payment : Bool → Payment → Action Db (Unit {0})
insert_payment down p = statement down (λ db.
    if any (is_payment_for p.midtrans_order_id) db.payments then (err database, db) else (
      ok tt,
      record db {
        payments =
            record p {
              subscription_id = none;
              midtrans_transaction_id = none;
              payment_method = none;
              va_number = none;
              paid_at = none;
            }
            ∷ db.payments;
      },
    ))

-- `PaymentRepository.UpdateOnSuccess`
unfoldable pub update_on_success :
    Bool → ℕ → String → String → String → ℕ → Option String → String → Action Db (Unit {0})
update_on_success down now order transaction method subscription va raw = statement down (
    modify (λ db. record db {
      payments =
          update_if (is_payment_for order)
            (λ p. record p {
              status = PaymentStatus.success;
              midtrans_transaction_id = some transaction;
              payment_method = some method;
              subscription_id = some subscription;
              va_number = va;
              paid_at = some now;
              raw_notification = raw;
              updated_at = now;
            })
            db.payments;
    }))

-- `PaymentRepository.UpdateOnFailed`
unfoldable pub update_on_failed : Bool → ℕ → String → PaymentStatus → String → Action Db (Unit {0})
update_on_failed down now order status raw = statement down (
    modify (λ db. record db {
      payments =
          update_if (is_payment_for order)
            (λ p. record p { status = status; raw_notification = raw; updated_at = now })
            db.payments;
    }))

abbrev pub is_tenant : ℕ → Tenant → Bool
is_tenant id t = t.id == id && is_null t.deleted_at

unfoldable pub find_tenant : ℕ → Db → Option Tenant
find_tenant id db = find_first (is_tenant id) db.tenants

-- `TenantRepository.GetByID`
abbrev pub get_tenant : Bool → ℕ → Action Db Tenant
get_tenant down id = select_one down (find_tenant id) tenant_not_found

-- What the UPDATE of `TenantRepository.Update` makes of a row.
abbrev pub merge_tenant : Tenant → Tenant → Tenant
merge_tenant t row = record row {
  name = text_or t.name row.name;
  description = pointer_or t.description row.description;
  logo_url = pointer_or t.logo_url row.logo_url;
  primary_color = text_or t.primary_color row.primary_color;
  settings = pointer_or t.settings row.settings;
  status = if is_blank_tenant_status t.status then row.status else t.status;
  trial_ends_at = pointer_or t.trial_ends_at row.trial_ends_at;
  updated_at = t.updated_at;
}

-- `TenantRepository.Update`
unfoldable pub update_tenant : Bool → Tenant → Action Db (Unit {0})
update_tenant down t = statement down (λ db.
    if any (is_tenant t.id) db.tenants
    then (ok tt, record db { tenants = update_if (is_tenant t.id) (merge_tenant t) db.tenants })
    else (err tenant_not_found, db))

-- `TenantRepository.ListActive`
unfoldable pub tenants_in_use : Db → List Tenant
tenants_in_use db = select (λ t. is_in_use t.status && is_null t.deleted_at) db.tenants

unfoldable pub find_user : ℕ → Db → Option User
find_user id db = find_first (λ u. u.id == id && is_null u.deleted_at) db.users

-- `UserRepository.GetByID`
abbrev pub get_user : Bool → ℕ → Action Db User
get_user down id = select_one down (find_user id) user_not_found
