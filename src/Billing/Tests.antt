-- ===== src/Billing/Tests.antt =====
-- Billing at a concrete store: a tenant in its trial that pays for a plan.
use guestbook.Prelude.{
  ◌+◌, ◌*◌, ◌≡◌, ◌≢◌, ◌≤◌, refl, ap, arith, true, false, none, some, List, [], ◌∷◌, count_if,
  find_first, update_if, any, equal_fold,
}
use guestbook.Action.{ok}
use guestbook.Store.{Db, Payment, PaymentStatus, is_paid}
use guestbook.Samples.{quiet, sample_db, starter_plan}
use guestbook.Billing.Calendar.{day, add_date}
use guestbook.Billing.Repo.{
  find_payment, find_plan, find_user, find_tenant, expire_all_active, insert_subscription,
  insert_payment, update_on_success, update_tenant,
}
use guestbook.Billing.Service.{
  Client, NotificationPayload, CheckoutRequest, verify_signature, is_success_status,
  handle_webhook_notification, settle, activate_subscription, update_tenant_status, checkout,
  record_pending, new_payment, has_signature, codes,
}
use guestbook.Billing.Expiry.{process_expired_subscriptions}
use guestbook.Billing.Requests.{Request, serve_all}
use guestbook.Billing.Paid.{webhook_gate}
use guestbook.Billing.PaidOnce.{serve_all-Holds}
use guestbook.Billing.Current.{currents, serve_all-One}
use guestbook.Billing.Sweep.{is_stale, sweep_ends}

-- A hash that keeps the text, an order that is always "GF-1".
abbrev client : Client
client = record {
  server_key = "K";
  sha512 = λ s. s;
  create_order_id = λ _ _ _. "GF-1";
  create_transaction = λ _. some "snap";
  reencoded = λ s. s;
}

abbrev settlement : NotificationPayload
settlement = record {
  transaction_time = "";
  transaction_status = "settlement";
  transaction_id = "T1";
  signature_key = "gf-120099k";
  payment_type = "qris";
  order_id = "GF-1";
  merchant_id = "M";
  gross_amount = "99";
  fraud_status = "";
  currency = "IDR";
  va_numbers = [];
}

abbrev order : CheckoutRequest
order = record { plan_id = 3; billing_cycle = "monthly" }

abbrev ordered_db : Db
ordered_db = (checkout client quiet 7 9 order sample_db).1

abbrev paid_db : Db
paid_db = (handle_webhook_notification client quiet settlement "{}" ordered_db).1

abbrev pending : Payment
pending = record (new_payment quiet 7 starter_plan "GF-1" "monthly") { paid_at = none }

-- 31 January 2024 is day 738915 after 1 January of the year 1; a month later is 2 March.
add_date_test : add_date 0 1 0 (738915 * day + 5) ≡ (738915 + 31) * day + 5
unfolding add_date
add_date_test = refl

ordered : find_payment "GF-1" ordered_db ≡ some pending
unfolding checkout record_pending insert_payment new_payment find_payment find_plan find_user
    find_first any
ordered = refl

success : is_success_status "settlement" "" ≡ true
unfolding is_success_status
success = refl

abbrev paid : Payment
paid = record pending {
  status = PaymentStatus.success;
  midtrans_transaction_id = some "T1";
  payment_method = some "qris";
  subscription_id = some 1000;
  paid_at = some 102;
  raw_notification = "{}";
  updated_at = 102;
}

is_paid_now : find_payment "GF-1" paid_db ≡ some paid
unfolding checkout record_pending insert_payment new_payment find_payment find_plan find_user
    find_first any handle_webhook_notification verify_signature equal_fold settle is_success_status
    activate_subscription insert_subscription expire_all_active update_on_success
    update_tenant_status update_tenant find_tenant update_if
is_paid_now = refl

changed : paid_db ≢ ordered_db
unfolding new_payment
changed h =
    let same : is_paid paid.status ≡ is_paid pending.status =
      cc (ap (find_payment "GF-1") h, is_paid_now, ordered) in
    absurd (ground (arith, same))

webhook_gate_example :
    (any (has_signature client settlement) codes ≡ true)
    × ((pay : Payment) × (find_payment "GF-1" ordered_db ≡ some pay) × (is_paid pay.status ≡ false))
webhook_gate_example = webhook_gate client quiet settlement "{}" ordered_db changed

abbrev later : List Request
later =
    Request.notify quiet (record settlement { transaction_status = "expire" }) "{}"
    ∷ Request.sweep quiet
    ∷ Request.look quiet 7
    ∷ []

serve_all-Holds_example : find_payment "GF-1" (serve_all client later paid_db) ≡ some paid
serve_all-Holds_example = serve_all-Holds client "GF-1" paid later paid_db refl is_paid_now

none_at_first : currents 7 sample_db ≤ 1
unfolding currents count_if
none_at_first = omega arith

-- The order and its notification, and what follows.
abbrev all_of_it : List Request
all_of_it = Request.order quiet 7 9 order ∷ Request.notify quiet settlement "{}" ∷ later

serve_all-One_example : currents 7 (serve_all client all_of_it sample_db) ≤ 1
serve_all-One_example =
    serve_all-One client 7 all_of_it sample_db (tt, (refl, (refl, (tt, (tt, tt))))) none_at_first

sweep_ends_example :
    ((process_expired_subscriptions quiet paid_db).0 ≡ ok tt)
    × (any (is_stale 100) (process_expired_subscriptions quiet paid_db).1.subscriptions ≡ false)
sweep_ends_example = sweep_ends quiet paid_db (λ n. refl)
