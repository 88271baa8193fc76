-- ===== src/Billing/Current.antt =====
-- A tenant has one current subscription at most (internal/service/billing_service.go).
use guestbook.Prelude.{
  ℕ, ◌+◌, ◌≤◌, ◌==◌, String, ◌≡◌, refl, sym, subst, Bool, true, false, Option, List, [], ◌∷◌,
  count_if, update_if, arith, if◌then◌else◌, All,
}
use guestbook.Action.{Env}
use guestbook.Store.{Plan, Db, Tenant, SubscriptionStatus, Subscription, PaymentStatus, Payment}
use guestbook.Billing.Repo.{
  is_current_of, insert_subscription, update_subscription_status, insert_payment, expire_all_active,
  update_on_success, update_on_failed, update_tenant,
}
use guestbook.Billing.Service.{
  Client, NotificationPayload, new_subscription, va_number_of, activate_subscription, settle,
}
use guestbook.Billing.Kept.{activate_kept, webhook_kept, checkout_kept, look_kept, sweep_kept}
use guestbook.Billing.Requests.{Request, serve, serve_all}

-- The current subscriptions of a tenant.
unfoldable pub currents : ℕ → Db → ℕ
currents tenant db = count_if (is_current_of tenant) db.subscriptions

expire_others :
    (t u now : ℕ) (s : Subscription)
    → is_current_of t (record s { status = SubscriptionStatus.expired; updated_at = now }) ≡ false
expire_others t u now s = ground arith

-- Of the tenant whose subscriptions expire none is left, and another tenant keeps its own.
count-expire :
    (t u now : ℕ) (xs : List Subscription)
    → count_if (is_current_of t) (
        update_if
          (is_current_of u)
          (λ s. record s { status = SubscriptionStatus.expired; updated_at = now })
          xs)
      ≡ (if t == u then 0 else count_if (is_current_of t) xs)
unfolding count_if update_if
count-expire t u now [] = ground arith
count-expire t u now (s ∷ xs) = ground (arith, count-expire t u now xs, expire_others t u now s)

-- Expiring one subscription adds none.
count-expire_one :
    (t now id : ℕ) (xs : List Subscription)
    → count_if (is_current_of t) (
        update_if
          (λ s. s.id == id)
          (λ s. record s { status = SubscriptionStatus.expired; updated_at = now })
          xs)
      ≤ count_if (is_current_of t) xs
unfolding count_if update_if
count-expire_one t now id [] = omega arith
count-expire_one t now id (s ∷ xs) = ground (arith, count-expire_one t now id xs)

-- The statement that expires the tenant's subscriptions is not the one that fails.
abbrev pub Expires : Request → Type 0
Expires (Request.notify v n body) = v.down 1 ≡ false
Expires _ = Unit

new_tenant :
    (v : Env) (due : Payment) (plan : Plan) (n : NotificationPayload)
    → (new_subscription v due plan n).tenant_id ≡ due.tenant_id
unfolding new_subscription
new_tenant v due plan n = refl

module _ (t : ℕ) where
  -- At most one.
  abbrev One : Db → Type 0
  One db = currents t db ≤ 1

  tenant-One : (down : Bool) (row : Tenant) (db : Db) → One db → One (update_tenant down row db).1
  unfolding currents update_tenant
  tenant-One true row db h = h
  tenant-One false row db h = ground (arith, h)

  payment-One : (down : Bool) (p : Payment) (db : Db) → One db → One (insert_payment down p db).1
  unfolding currents insert_payment
  payment-One true p db h = h
  payment-One false p db h = ground (arith, h)

  expire-One-One :
      (down : Bool) (now id : ℕ) (db : Db)
      → One db
      → One (update_subscription_status down now id SubscriptionStatus.expired db).1
  unfolding currents update_subscription_status
  expire-One-One true now id db h = h
  expire-One-One false now id db h = ground (arith, h, count-expire_one t now id db.subscriptions)

  failed-One :
      (down : Bool) (now : ℕ) (order : String) (status : PaymentStatus) (raw : String) (db : Db)
      → One db
      → One (update_on_failed down now order status raw db).1
  unfolding currents update_on_failed
  failed-One true now order status raw db h = h
  failed-One false now order status raw db h = h

  success-One :
      (down : Bool) (now : ℕ) (order transaction method : String) (id : ℕ) (va : Option String)
      (raw : String) (db : Db)
      → One db
      → One (update_on_success down now order transaction method id va raw db).1
  unfolding currents update_on_success
  success-One true now order transaction method id va raw db h = h
  success-One false now order transaction method id va raw db h = h

  -- Room for one more subscription of tenant `u`.
  abbrev Room : ℕ → Db → Type 0
  Room u db = (if t == u then 1 else 0) + currents t db ≤ 1

  expire_all-Room : (now u : ℕ) (db : Db) → One db → Room u (expire_all_active false now u db).1
  unfolding currents expire_all_active
  expire_all-Room now u db h = ground (arith, h, count-expire t u now db.subscriptions)

  Room-One : (u : ℕ) (db : Db) → Room u db → One db
  Room-One u db h = ground (arith, h)

  insert-One :
      (down : Bool) (s : Subscription) (db : Db)
      → Room s.tenant_id db
      → One (insert_subscription down s db).1
  unfolding currents insert_subscription count_if
  insert-One true s db h = ground (arith, h)
  insert-One false s db h = ground (arith, h)

  activate-One :
      (v : Env) (due : Payment) (n : NotificationPayload) (raw : String) (db : Db)
      → v.down 1 ≡ false
      → One db
      → One (activate_subscription v due n raw db).1
  unfolding activate_subscription
  activate-One v due n raw db up h =
      let expired : Db = (expire_all_active (v.down 1) (v.now 0) due.tenant_id db).1 in
      let room : Room due.tenant_id expired =
        rw up (expire_all-Room (v.now 0) due.tenant_id db h) in
      let h2 = λ (plan : Plan).
        insert-One (v.down 3) (new_subscription v due plan n) expired
          (subst (λ u. Room u expired) (sym (new_tenant v due plan n)) room) in
      activate_kept One tenant-One v due n raw db (Room-One due.tenant_id expired room) h2 (λ plan.
        success-One (v.down 4) (v.now 2) n.order_id n.transaction_id n.payment_type (v.fresh 0)
          (va_number_of n.va_numbers) raw _ (h2 plan))

  settle-One :
      (v : Env) (due : Payment) (n : NotificationPayload) (raw : String) (db : Db)
      → v.down 1 ≡ false
      → One db
      → One (settle v due n raw db).1
  unfolding settle
  settle-One v due n raw db up h = ground (
    arith,
    h,
    activate-One v due n raw db up h,
    failed-One (v.down 1) (v.now 0) n.order_id PaymentStatus.failed raw db h,
    failed-One (v.down 1) (v.now 0) n.order_id PaymentStatus.expired raw db h,
  )

  serve-One : (c : Client) (r : Request) (db : Db) → Expires r → One db → One (serve c r db)
  unfolding serve
  serve-One c (Request.notify v n body) db up h =
      webhook_kept One c v n body db h (λ p _ _. settle-One v p n (c.reencoded body) db up h)
  serve-One c (Request.order v tenant user req) db up h =
      checkout_kept One payment-One c v tenant user req db h
  serve-One c (Request.look v tenant) db up h =
      look_kept One tenant-One expire-One-One v tenant db h
  serve-One c (Request.sweep v) db up h = sweep_kept One tenant-One expire-One-One v db h

-- A tenant that has at most one current subscription never has two, whatever notifications,
-- checkouts, status requests and sweeps are served, one after the other, provided that no notification's second statement fails, the one by which an activation expires the tenant's
-- subscriptions and whose error is ignored. Any other statement may fail.
pub serve_all-One :
    (c : Client) (t : ℕ) (rs : List Request) (db : Db)
    → All Expires rs
    → currents t db ≤ 1
    → currents t (serve_all c rs db) ≤ 1
unfolding serve_all
serve_all-One c t [] db up h = h
serve_all-One c t (r ∷ rs) db up h =
    serve_all-One c t rs (serve c r db) up.1 (serve-One t c r db up.0 h)
