-- ===== src/Billing/Activation.antt =====
-- What a notification of success brings about (`HandleWebhookNotification` and
-- `activateSubscription` of internal/service/billing_service.go).
use guestbook.Prelude.{ℕ, String, ◌≡◌, Bool, true, Option, some}
use guestbook.Action.{Action}
use guestbook.Store.{Db, Tenant, TenantStatus, Subscription, Payment, PaymentStatus, is_paid}
use guestbook.Billing.Repo.{find_tenant, find_payment, find_current}

module _ (down : Bool) (now : ℕ) (order transaction method : String) (id : ℕ) (va : Option String)
    (raw : String) where
  -- The row of a payment that succeeded.
  abbrev settled : Payment → Payment
  settled p = record p {
    status = PaymentStatus.success;
    midtrans_transaction_id = some transaction;
    payment_method = some method;
    subscription_id = some id;
    va_number = va;
    paid_at = some now;
    raw_notification = raw;
    updated_at = now;
  }

-- A tenant is active, and the subscriptions and payments are those of before.
abbrev Activated : ℕ → Db → Db → Type 0
Activated id db after =
    ((t : Tenant) × (find_tenant id after ≡ some t) × (t.status ≡ TenantStatus.active))
    × (after.subscriptions ≡ db.subscriptions)
    × (after.payments ≡ db.payments)

-- The order is paid, by a subscription to the plan that was ordered, which is the tenant's current
-- one, and the tenant is active.
abbrev pub Complete : Payment → String → Db → Type 0
Complete pay order after =
    ((s : Subscription) × (find_current pay.tenant_id after ≡ some s)
      × (s.plan_id ≡ pay.plan_id)
      × ((p : Payment) × (find_payment order after ≡ some p)
          × (is_paid p.status ≡ true)
          × (p.subscription_id ≡ some s.id)))
    × ((t : Tenant) × (find_tenant pay.tenant_id after ≡ some t) × (t.status ≡ TenantStatus.active))
