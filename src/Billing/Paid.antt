-- ===== src/Billing/Paid.antt =====
-- A payment that succeeded stays as it is (internal/service/billing_service.go).
use guestbook.Prelude.{
  ℕ, String, str_eq, eq_iff, ◌≡◌, ◌≢◌, refl, sym, ap, ◌∙◌, Bool, true, false, Option, some, List,
  find_first, any, update_if, find_first-update_if_ne, Bool-cases, Option-cases, inl, inr, arith,
}
use guestbook.Action.{Env}
use guestbook.Store.{
  Plan, Db, Tenant, SubscriptionStatus, Subscription, PaymentStatus, Payment, is_paid,
}
use guestbook.Billing.Kept.{activate_kept, webhook_kept}
use guestbook.Billing.Repo.{
  is_payment_for, find_payment, insert_subscription, update_subscription_status, expire_all_active,
  update_on_success, update_on_failed, update_tenant,
}
use guestbook.Billing.Service.{
  Client, NotificationPayload, new_subscription, va_number_of, activate_subscription, settle,
  has_signature, codes, handle_webhook_notification,
}

first_code :
    (c : Client) (p : NotificationPayload)
    → has_signature c p "200" ≡ true
    → any (has_signature c p) codes ≡ true
unfolding any
first_code c p h = ground arith

-- What a notification needs in order to change the store: a signature by one of the three codes,
-- and a payment of that order that has not succeeded yet.
pub webhook_gate :
    (c : Client) (v : Env) (p : NotificationPayload) (body : String) (db : Db)
    → (handle_webhook_notification c v p body db).1 ≢ db
    → (any (has_signature c p) codes ≡ true)
      × ((pay : Payment) × (find_payment p.order_id db ≡ some pay) × (is_paid pay.status ≡ false))
unfolding handle_webhook_notification
webhook_gate c v p body db h = elim (Option-cases (find_payment p.order_id db)) [
  | inl e ↦ absurd (ground (arith, e, h))
  | inr (pay, e) ↦ elim (Bool-cases (is_paid pay.status)) [
    | inl paid ↦ absurd (ground (arith, e, paid, h))
    | inr due ↦ (ground (arith, e, h, first_code c p), (pay, e, due))
  ]
]

-- The payment of an order.
abbrev pub Holds : String → Payment → Db → Type 0
Holds order pay db = find_payment order db ≡ some pay

module _ (order : String) (pay : Payment) where
  -- A call that leaves the payments alone.
  keep : (a b : Db) → b.payments ≡ a.payments → Holds order pay a → Holds order pay b
  unfolding find_payment
  keep a b e h = ap (find_first (is_payment_for order)) e ∙ h

  expire_keep :
      (down : Bool) (now tenant : ℕ) (db : Db)
      → Holds order pay db
      → Holds order pay (expire_all_active down now tenant db).1
  unfolding expire_all_active
  expire_keep true now tenant db h = h
  expire_keep false now tenant db h = keep db _ refl h

  insert_keep :
      (down : Bool) (s : Subscription) (db : Db)
      → Holds order pay db
      → Holds order pay (insert_subscription down s db).1
  unfolding insert_subscription
  insert_keep true s db h = h
  insert_keep false s db h = keep db _ refl h

  pub status_keep :
      (down : Bool) (now id : ℕ) (status : SubscriptionStatus) (db : Db)
      → Holds order pay db
      → Holds order pay (update_subscription_status down now id status db).1
  unfolding update_subscription_status
  status_keep true now id status db h = h
  status_keep false now id status db h = keep db _ refl h

  pub tenant_keep :
      (down : Bool) (t : Tenant) (db : Db)
      → Holds order pay db
      → Holds order pay (update_tenant down t db).1
  unfolding update_tenant find_payment
  tenant_keep down t db h = ground arith

  -- A change of another order's payments.
  other_keep :
      (other : String) (f : Payment → Payment) (ps : List Payment)
      → str_eq other order ≡ false
      → ((p : Payment) → (f p).midtrans_order_id ≡ p.midtrans_order_id)
      → find_first (is_payment_for order) (update_if (is_payment_for other) f ps)
        ≡ find_first (is_payment_for order) ps
  other_keep other f ps apart k =
      find_first-update_if_ne (is_payment_for order) (is_payment_for other) f ps (λ p hit.
        let same : p.midtrans_order_id ≡ other = (eq_iff p.midtrans_order_id other).0 hit in
        let miss : str_eq p.midtrans_order_id order ≡ false =
          ap (λ o. str_eq o order) same ∙ apart in
        (miss, ap (λ o. str_eq o order) (k p) ∙ miss))

  success_keep :
      (down : Bool) (now : ℕ) (other transaction method : String) (id : ℕ) (va : Option String)
      (raw : String) (db : Db)
      → str_eq other order ≡ false
      → Holds order pay db
      → Holds order pay (update_on_success down now other transaction method id va raw db).1
  unfolding update_on_success find_payment
  success_keep true now other transaction method id va raw db apart h = h
  success_keep false now other transaction method id va raw db apart h =
      other_keep other _ db.payments apart (λ p. refl) ∙ h

  failed_keep :
      (down : Bool) (now : ℕ) (other : String) (status : PaymentStatus) (raw : String) (db : Db)
      → str_eq other order ≡ false
      → Holds order pay db
      → Holds order pay (update_on_failed down now other status raw db).1
  unfolding update_on_failed find_payment
  failed_keep true now other status raw db apart h = h
  failed_keep false now other status raw db apart h =
      other_keep other _ db.payments apart (λ p. refl) ∙ h

  activate_keep :
      (v : Env) (due : Payment) (n : NotificationPayload) (raw : String) (db : Db)
      → str_eq n.order_id order ≡ false
      → Holds order pay db
      → Holds order pay (activate_subscription v due n raw db).1
  unfolding activate_subscription
  activate_keep v due n raw db apart h =
      let h1 = expire_keep (v.down 1) (v.now 0) due.tenant_id db h in
      let h2 = λ (plan : Plan). insert_keep (v.down 3) (new_subscription v due plan n) _ h1 in
      activate_kept (Holds order pay) tenant_keep v due n raw db h1 h2 (λ plan.
        success_keep (v.down 4) (v.now 2) n.order_id n.transaction_id n.payment_type (v.fresh 0)
          (va_number_of n.va_numbers) raw _ apart (h2 plan))

  settle_keep :
      (v : Env) (due : Payment) (n : NotificationPayload) (raw : String) (db : Db)
      → str_eq n.order_id order ≡ false
      → Holds order pay db
      → Holds order pay (settle v due n raw db).1
  unfolding settle
  settle_keep v due n raw db apart h = ground (
    arith,
    activate_keep v due n raw db apart h,
    failed_keep (v.down 1) (v.now 0) n.order_id PaymentStatus.failed raw db apart h,
    failed_keep (v.down 1) (v.now 0) n.order_id PaymentStatus.expired raw db apart h,
  )

  -- An order with an unpaid payment is not this one.
  apart :
      (p : Payment) (other : String) (db : Db)
      → is_paid pay.status ≡ true
      → Holds order pay db
      → find_payment other db ≡ some p
      → is_paid p.status ≡ false
      → str_eq other order ≡ false
  apart p other db paid h found due = elim (Bool-cases (str_eq other order)) [
    | inl same ↦
        let found' : find_payment order db ≡ some p =
          ap (λ o. find_payment o db) (sym ((eq_iff other order).0 same)) ∙ found in
        absurd (ground (arith, h, found', paid, due))
    | inr ne ↦ ne
  ]

  -- A notification, of this order or another, leaves a payment that succeeded as it is.
  pub webhook_keep :
      (c : Client) (v : Env) (n : NotificationPayload) (body : String) (db : Db)
      → is_paid pay.status ≡ true
      → Holds order pay db
      → Holds order pay (handle_webhook_notification c v n body db).1
  webhook_keep c v n body db paid h = webhook_kept (Holds order pay) c v n body db h (λ p found due.
      settle_keep v p n (c.reencoded body) db (apart p n.order_id db paid h found due) h)
