-- ===== src/Billing/Service.antt =====
-- Payments and their notifications: internal/service/billing_service.go (`Checkout`,
-- `HandleWebhookNotification` and what it calls) and internal/payment/midtrans_client.go.
--
-- The mails are left out: they read, and nothing reads them.
use Prim.Native.String.{◌++◌}
use guestbook.Prelude.{
  ℕ, ◌+◌, ℤ, String, is_empty, str_eq, equal_fold, Bool, not, ◌&&◌, ◌||◌, Option, none, some, List,
  [], ◌∷◌, if◌then◌else◌, any,
}
use guestbook.Action.{
  not_found, invalid_notification_signature, database, unspecified, Action, ◌>>=◌, ◌>>◌, pure,
  raise_if, or_raise, or_error, ignore, Env, from,
}
use guestbook.Store.{
  Db, User, Plan, TenantStatus, SubscriptionStatus, Subscription, PaymentStatus, Payment, is_paid,
}
use guestbook.Billing.Calendar.{day, add_date}
use guestbook.Billing.Repo.{
  get_plan, insert_subscription, expire_all_active, get_payment, insert_payment, update_on_success,
  update_on_failed, get_tenant, update_tenant, get_user,
}

pub record CreateSnapRequest : Type 0 where
  pub order_id : String
  pub amount_idr : ℤ
  pub plan_name : String
  pub billing_cycle : String
  pub tenant_id : ℕ
  pub customer_name : String
  pub customer_email : String
  pub customer_phone : String

-- The server's key, and what is outside of the repository: SHA-512 as a text of hexadecimal
-- digits, the text of an order's id (from the tenant, the time and a drawn UUID), the payment
-- provider's answer, and a JSON document parsed and printed again.
pub record Client : Type 0 where
  pub server_key : String
  pub sha512 : String → String
  pub create_order_id : ℕ → ℕ → ℕ → String
  pub create_transaction : CreateSnapRequest → Option String
  pub reencoded : String → String

pub record VaNumber : Type 0 where
  pub bank : String
  pub va_number : String

pub record NotificationPayload : Type 0 where
  pub transaction_time : String
  pub transaction_status : String
  pub transaction_id : String
  pub signature_key : String
  pub payment_type : String
  pub order_id : String
  pub merchant_id : String
  pub gross_amount : String
  pub fraud_status : String
  pub currency : String
  pub va_numbers : List VaNumber

pub record CheckoutRequest : Type 0 where
  pub plan_id : ℕ
  pub billing_cycle : String

pub record CheckoutResponse : Type 0 where
  pub snap_token : String
  pub midtrans_order_id : String
  pub plan_name : String
  pub amount_idr : ℤ

-- `Client.VerifySignature`
unfoldable pub verify_signature : Client → String → String → String → String → Bool
verify_signature c order code gross signature =
    equal_fold (c.sha512 (order ++ code ++ gross ++ c.server_key)) signature

-- `IsSuccessStatus`
unfoldable pub is_success_status : String → String → Bool
is_success_status status fraud =
    if str_eq status "capture" then str_eq fraud "accept" else str_eq status "settlement"

-- `IsFailedStatus`
unfoldable pub is_failed_status : String → Bool
is_failed_status status =
    str_eq status "deny" || (str_eq status "cancel" || str_eq status "failure")

-- `IsExpiredStatus`
unfoldable pub is_expired_status : String → Bool
is_expired_status status = str_eq status "expire"

-- The payment that `Checkout` records.
unfoldable pub new_payment : Env → ℕ → Plan → String → String → Payment
new_payment v tenant plan order cycle = record {
  id = v.fresh 1;
  tenant_id = tenant;
  subscription_id = none;
  plan_id = plan.id;
  midtrans_order_id = order;
  midtrans_transaction_id = none;
  amount_idr = plan.price_idr;
  billing_cycle = cycle;
  status = PaymentStatus.pending;
  payment_method = none;
  va_number = none;
  paid_at = none;
  expired_at = some (v.now 1 + day);
  raw_notification = "null";
  created_at = v.now 1;
  updated_at = v.now 1;
}

-- What `Checkout` asks the payment provider for.
abbrev pub snap_request : ℕ → Plan → User → String → String → CreateSnapRequest
snap_request tenant plan u order cycle = record {
  order_id = order;
  amount_idr = plan.price_idr;
  plan_name = plan.display_name;
  billing_cycle = cycle;
  tenant_id = tenant;
  customer_name = u.full_name;
  customer_email = u.email;
  customer_phone = "";
}

-- The end of `Checkout`: the payment is not recorded when the INSERT fails, and the call goes on.
unfoldable pub record_pending :
    Env → ℕ → Plan → String → String → String → Action Db CheckoutResponse
record_pending v tenant plan order cycle token = do
  ignore (insert_payment (v.down 2) (new_payment v tenant plan order cycle))
  pure (record {
    snap_token = token;
    midtrans_order_id = order;
    plan_name = plan.display_name;
    amount_idr = plan.price_idr;
  })

-- `Checkout`
unfoldable pub checkout : Client → Env → ℕ → ℕ → CheckoutRequest → Action Db CheckoutResponse
checkout c v tenant user req = do
  plan ← or_error (get_plan (v.down 0) req.plan_id) not_found
  raise_if (not (str_eq plan.billing_cycle req.billing_cycle))
      (unspecified "billing cycle mismatch")
  u ← get_user (v.down 1) user
  let order = c.create_order_id tenant (v.now 0) (v.fresh 0)
  token ←
      or_raise (c.create_transaction (snap_request tenant plan u order req.billing_cycle)) database
  record_pending v tenant plan order req.billing_cycle token

-- `updateTenantStatus`
unfoldable pub update_tenant_status : Env → ℕ → TenantStatus → Action Db (Unit {0})
update_tenant_status v id status = do
  tenant ← get_tenant (v.down 0) id
  update_tenant (v.down 1) (record tenant { status = status })

-- The subscription that a payment brings.
unfoldable pub new_subscription : Env → Payment → Plan → NotificationPayload → Subscription
new_subscription v pay plan notif =
    let now = v.now 1 in
    let yearly = add_date 1 0 0 now in
    let monthly = add_date 0 1 0 now in
    record {
      id = v.fresh 0;
      tenant_id = pay.tenant_id;
      plan_id = plan.id;
      status = SubscriptionStatus.active;
      billing_cycle = pay.billing_cycle;
      started_at = now;
      expires_at = some (if str_eq pay.billing_cycle "yearly" then yearly else monthly);
      cancelled_at = none;
      midtrans_order_id = some notif.order_id;
      midtrans_transaction_id = some notif.transaction_id;
      created_at = now;
      updated_at = now;
    }

-- The virtual account of the first entry, if it has one.
abbrev pub va_number_of : List VaNumber → Option String
va_number_of [] = none
va_number_of (n ∷ _) = if is_empty n.va_number then none else some n.va_number

-- `activateSubscription`
unfoldable pub activate_subscription :
    Env → Payment → NotificationPayload → String → Action Db (Unit {0})
activate_subscription v pay notif raw = do
  ignore (expire_all_active (v.down 1) (v.now 0) pay.tenant_id)
  plan ← get_plan (v.down 2) pay.plan_id
  insert_subscription (v.down 3) (new_subscription v pay plan notif)
  update_on_success (v.down 4) (v.now 2) notif.order_id notif.transaction_id notif.payment_type
      (v.fresh 0) (va_number_of notif.va_numbers) raw
  update_tenant_status (from 5 v) pay.tenant_id TenantStatus.active

abbrev pub has_signature : Client → NotificationPayload → String → Bool
has_signature c p code = verify_signature c p.order_id code p.gross_amount p.signature_key

-- The codes whose signature is accepted.
abbrev pub codes : List String
codes = "200" ∷ "201" ∷ "407" ∷ []

abbrev pub is_blank_notification : NotificationPayload → Bool
is_blank_notification p =
    is_empty p.order_id || (is_empty p.gross_amount || is_empty p.signature_key)

-- The switch of `HandleWebhookNotification` on the transaction's status.
unfoldable pub settle : Env → Payment → NotificationPayload → String → Action Db (Unit {0})
settle v pay p raw =
    if is_success_status p.transaction_status p.fraud_status
    then activate_subscription v pay p raw
    else if is_failed_status p.transaction_status
    then update_on_failed (v.down 1) (v.now 0) p.order_id PaymentStatus.failed raw
    else if is_expired_status p.transaction_status
    then update_on_failed (v.down 1) (v.now 0) p.order_id PaymentStatus.expired raw
    else pure tt

-- `HandleWebhookNotification`; `body` is the request's raw body.
unfoldable pub handle_webhook_notification :
    Client → Env → NotificationPayload → String → Action Db (Unit {0})
handle_webhook_notification c v p body = do
  raise_if (is_blank_notification p) invalid_notification_signature
  raise_if (not (has_signature c p "200") && not (any (has_signature c p) codes))
      invalid_notification_signature
  pay ← or_error (get_payment (v.down 0) p.order_id) not_found
  if is_paid pay.status then pure tt else settle v pay p (c.reencoded body)
