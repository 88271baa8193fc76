-- ===== src/Billing/Kept.antt =====
-- What every call of internal/service/billing_service.go but the webhook keeps, when the statements
-- that it sends keep it.
use guestbook.Prelude.{
  if◌then◌else◌, ◌&&◌, ltb, ℕ, suc, ◌+◌, String, str_eq, ◌≡◌, Bool, false, some, List, [], ◌∷◌, any,
  Bool-cases, Option-cases, inl, inr, arith, not, length,
}
use guestbook.Action.{
  invalid_notification_signature, pure, Env, from, Action, ok, err, Result, ◌>>=◌, ◌>>◌, raise_if,
  raise_if_read_only, or_raise_read_only, or_error, or_raise, attempt, bind_keeps, bind_writes,
  not_found, statement, gets, gets_read_only, is_not_found, unspecified, database,
}
use guestbook.Store.{
  is_trial, select_one_read_only, Db, Tenant, User, Plan, TenantStatus, SubscriptionStatus,
  Subscription, Payment, is_paid,
}
use guestbook.Billing.Repo.{
  update_on_success, insert_subscription, expire_all_active, get_payment, find_payment,
  update_tenant, get_plan, find_plan, get_current, find_current, update_subscription_status,
  insert_payment, get_user, get_tenant, tenants_in_use, current_subscriptions,
}
use guestbook.Billing.Service.{
  is_blank_notification, va_number_of, new_subscription, codes, has_signature, settle,
  NotificationPayload, activate_subscription, handle_webhook_notification, update_tenant_status,
  Client, CheckoutRequest, CheckoutResponse, new_payment, record_pending, snap_request, checkout,
}
use guestbook.Billing.Expiry.{
  plan_status, is_before, paid_status, unpaid_status, answer_status, get_subscription_status,
  expire_trial, expire_trials, expire_subscription, expire_subscriptions,
  process_expired_subscriptions,
}

plan_read_only :
    (down : Bool) (id : ℕ) (db : Db) → ((or_error (get_plan down id) not_found) db).1 ≡ db
unfolding find_plan
plan_read_only down id db = ground arith

pub found_read_only :
    (down : Bool) (order : String) (db : Db)
    → ((or_error (get_payment down order) not_found) db).1 ≡ db
unfolding find_payment
found_read_only down order db = ground arith

pub found_is :
    (down : Bool) (order : String) (db : Db) (p : Payment)
    → ((or_error (get_payment down order) not_found) db).0 ≡ ok p
    → find_payment order db ≡ some p
found_is down order db p h = ground arith

module _ (P : Db → Type 0)
    (tenant_keep : (down : Bool) (t : Tenant) (db : Db)
      → P db
      → P (update_tenant down t db).1) where
  pub update_tenant_status_kept :
      (v : Env) (id : ℕ) (status : TenantStatus) (db : Db)
      → P db
      → P (update_tenant_status v id status db).1
  unfolding update_tenant_status
  update_tenant_status_kept v id status db h =
      bind_keeps P (get_tenant (v.down 0) id)
        (λ t. update_tenant (v.down 1) (record t { status = status })) db
        (select_one_read_only (v.down 0) _ _ db) h (λ t _. tenant_keep (v.down 1) _ db h)

  -- An activation, statement by statement.
  pub activate_kept :
      (v : Env) (due : Payment) (n : NotificationPayload) (raw : String) (db : Db)
      → P (expire_all_active (v.down 1) (v.now 0) due.tenant_id db).1
      → ((plan : Plan)
          → P
              (insert_subscription
                (v.down 3)
                (new_subscription v due plan n)
                (expire_all_active (v.down 1) (v.now 0) due.tenant_id db).1).1)
      → ((plan : Plan)
          → P
              (update_on_success
                (v.down 4)
                (v.now 2)
                n.order_id
                n.transaction_id
                n.payment_type
                (v.fresh 0)
                (va_number_of n.va_numbers)
                raw
                (insert_subscription
                  (v.down 3)
                  (new_subscription v due plan n)
                  (expire_all_active (v.down 1) (v.now 0) due.tenant_id db).1).1).1)
      → P (activate_subscription v due n raw db).1
  unfolding activate_subscription
  activate_kept v due n raw db h1 h2 h3 =
      let last : Action Db (Unit {0}) =
        update_tenant_status (from 5 v) due.tenant_id TenantStatus.active in
      let third : Action Db (Unit {0}) =
        update_on_success (v.down 4) (v.now 2) n.order_id n.transaction_id n.payment_type
          (v.fresh 0) (va_number_of n.va_numbers) raw in
      let second : Plan → Action Db (Unit {0}) =
        λ plan. insert_subscription (v.down 3) (new_subscription v due plan n) in
      let expired : Db = (expire_all_active (v.down 1) (v.now 0) due.tenant_id db).1 in
      bind_keeps P (get_plan (v.down 2) due.plan_id) (λ plan. second plan >> (third >> last))
        expired (select_one_read_only (v.down 2) _ _ expired) h1
        (λ plan _.
          let inserted : Db = (second plan expired).1 in
          bind_writes P (second plan) (λ _. third >> last) expired (h2 plan)
            (λ _.
              bind_writes P third (λ _. last) inserted (h3 plan)
                (λ _.
                  update_tenant_status_kept (from 5 v) due.tenant_id TenantStatus.active
                    (third inserted).1 (h3 plan))))

module _ (P : Db → Type 0) where
  -- A notification keeps what the switch on its status keeps, for a payment that is still due.
  pub webhook_kept :
      (c : Client) (v : Env) (n : NotificationPayload) (body : String) (db : Db)
      → P db
      → ((p : Payment)
          → find_payment n.order_id db ≡ some p
          → is_paid p.status ≡ false
          → P (settle v p n (c.reencoded body) db).1)
      → P (handle_webhook_notification c v n body db).1
  unfolding handle_webhook_notification
  webhook_kept c v n body db h next =
      let raw = c.reencoded body in
      let forged = not (has_signature c n "200") && not (any (has_signature c n) codes) in
      let get : Action Db Payment = or_error (get_payment (v.down 0) n.order_id) not_found in
      let act : Payment → Action Db (Unit {0}) =
        λ p. if is_paid p.status then pure tt else settle v p n raw in
      let handle : Action Db (Unit {0}) = get >>= act in
      let check : Action Db (Unit {0}) = raise_if forged invalid_notification_signature in
      bind_keeps P (raise_if (is_blank_notification n) invalid_notification_signature)
        (λ _. check >> handle) db (raise_if_read_only _ _ db) h
        (λ _ _.
          bind_keeps P check (λ _. handle) db (raise_if_read_only forged _ db) h
            (λ _ _. bind_keeps P get act db (found_read_only (v.down 0) n.order_id db) h (λ p found.
              elim (Bool-cases (is_paid p.status)) [
                | inl done ↦ rw done h
                | inr due ↦ rw due (next p (found_is (v.down 0) n.order_id db p found) due)
              ])))

module _ (P : Db → Type 0)
    (payment_keep : (down : Bool) (p : Payment) (db : Db)
      → P db
      → P (insert_payment down p db).1) where
  record_pending_kept :
      (v : Env) (tenant : ℕ) (plan : Plan) (o cycle token : String) (db : Db)
      → P db
      → P (record_pending v tenant plan o cycle token db).1
  unfolding record_pending
  record_pending_kept v tenant plan o cycle token db h =
      payment_keep (v.down 2) (new_payment v tenant plan o cycle) db h

  pub checkout_kept :
      (c : Client) (v : Env) (tenant user : ℕ) (req : CheckoutRequest) (db : Db)
      → P db
      → P (checkout c v tenant user req db).1
  unfolding checkout
  checkout_kept c v tenant user req db h =
      let o = c.create_order_id tenant (v.now 0) (v.fresh 0) in
      let cycle = req.billing_cycle in
      let charge : Plan → User → Action Db CheckoutResponse = λ plan u.
        or_raise (c.create_transaction (snap_request tenant plan u o cycle)) database
        >>= record_pending v tenant plan o cycle in
      let named : Plan → Action Db CheckoutResponse =
        λ plan. get_user (v.down 1) user >>= charge plan in
      let same : Plan → Bool = λ plan. str_eq plan.billing_cycle cycle in
      let checked : Plan → Action Db CheckoutResponse =
        λ plan. raise_if (not (same plan)) (unspecified "billing cycle mismatch") >> named plan in
      bind_keeps P (or_error (get_plan (v.down 0) req.plan_id) not_found) checked db
        (plan_read_only (v.down 0) req.plan_id db) h
        (λ plan _.
          bind_keeps P (raise_if (not (same plan)) (unspecified "billing cycle mismatch"))
            (λ _. named plan) db (raise_if_read_only (not (same plan)) _ db) h
            (λ _ _.
              bind_keeps P (get_user (v.down 1) user) (charge plan) db
                (select_one_read_only (v.down 1) _ _ db) h
                (λ u _.
                  bind_keeps P
                    (or_raise (c.create_transaction (snap_request tenant plan u o cycle)) database)
                    (record_pending v tenant plan o cycle) db
                    (or_raise_read_only (c.create_transaction (snap_request tenant plan u o cycle))
                      database db)
                    h (λ token _. record_pending_kept v tenant plan o cycle token db h))))

module _ (P : Db → Type 0)
    (tenant_keep : (down : Bool) (t : Tenant) (db : Db) → P db → P (update_tenant down t db).1)
    (expire_keep : (down : Bool) (now id : ℕ) (db : Db)
      → P db
      → P (update_subscription_status down now id SubscriptionStatus.expired db).1) where
  plan_status_kept :
      (v : Env) (tenant : ℕ) (s : Subscription) (plan : Plan) (db : Db)
      → P db
      → P (plan_status v tenant s plan db).1
  unfolding plan_status
  plan_status_kept v tenant s plan db h =
      let expired : Db =
        (update_subscription_status (v.down 3) (v.now 1) s.id SubscriptionStatus.expired db).1 in
      let h1 = expire_keep (v.down 3) (v.now 1) s.id db h in
      let h2 =
        update_tenant_status_kept P tenant_keep (from 4 v) tenant TenantStatus.suspended expired
          h1 in
      elim (Bool-cases (is_before s.expires_at (v.now 0))) [
        | inl late ↦ rw late h2
        | inr soon ↦ rw soon h
      ]

  paid_status_kept :
      (v : Env) (tenant : ℕ) (s : Subscription) (db : Db) → P db → P (paid_status v tenant s db).1
  unfolding paid_status
  paid_status_kept v tenant s db h =
      bind_keeps P (get_plan (v.down 2) s.plan_id) (plan_status v tenant s) db
        (select_one_read_only (v.down 2) _ _ db) h (λ plan _. plan_status_kept v tenant s plan db h)

  unpaid_status_kept :
      (v : Env) (tenant : ℕ) (t : Tenant) (db : Db) → P db → P (unpaid_status v tenant t db).1
  unfolding unpaid_status
  unpaid_status_kept v tenant t db h =
      let h2 =
        update_tenant_status_kept P tenant_keep (from 2 v) tenant TenantStatus.suspended db h in
      elim (Option-cases t.trial_ends_at) [
        | inl e ↦ rw e h
        | inr (u, e) ↦ elim (Bool-cases (is_trial t.status)) [
          | inr n ↦ rw (e, n) h
          | inl y ↦ elim (Bool-cases (ltb u (v.now 0))) [
            | inl late ↦ rw (e, y, late) h2
            | inr soon ↦ rw (e, y, soon) h
          ]
        ]
      ]

  answer_kept :
      (v : Env) (tenant : ℕ) (t : Tenant) (r : Result Subscription) (db : Db)
      → P db
      → P (answer_status v tenant t r db).1
  unfolding answer_status
  answer_kept v tenant t (ok s) db h = paid_status_kept v tenant s db h
  answer_kept v tenant t (err e) db h = elim (Bool-cases (is_not_found e)) [
    | inl y ↦ rw y (unpaid_status_kept v tenant t db h)
    | inr n ↦ rw n h
  ]

  pub look_kept :
      (v : Env) (tenant : ℕ) (db : Db) → P db → P (get_subscription_status v tenant db).1
  unfolding get_subscription_status
  look_kept v tenant db h =
      let get : Action Db (Result Subscription) = attempt (get_current (v.down 1) tenant) in
      bind_keeps P (get_tenant (v.down 0) tenant) (λ t. get >>= answer_status v tenant t) db
        (select_one_read_only (v.down 0) _ _ db) h
        (λ t _.
          bind_keeps P get (answer_status v tenant t) db
            (select_one_read_only (v.down 1) (find_current tenant) not_found db) h
            (λ r _. answer_kept v tenant t r db h))

  expire_trial_kept :
      (down : Bool) (now : ℕ) (t : Tenant) (db : Db) → P db → P (expire_trial down now t db).1
  unfolding expire_trial
  expire_trial_kept down now t db h =
      elim (Bool-cases (is_trial t.status && is_before t.trial_ends_at now)) [
        | inl due ↦
            rw due
              (tenant_keep down (record t { status = TenantStatus.other "trial_expired" }) db h)
        | inr early ↦ rw early h
      ]

  expire_trials_kept :
      (v : Env) (k now : ℕ) (ts : List Tenant) (db : Db) → P db → P (expire_trials v k now ts db).1
  unfolding expire_trials
  expire_trials_kept v k now [] db h = h
  expire_trials_kept v k now (t ∷ ts) db h =
      let h' : P (expire_trial (v.down k) now t db).1 = expire_trial_kept (v.down k) now t db h in
      bind_writes P (expire_trial (v.down k) now t) (λ _. expire_trials v (suc k) now ts) db h'
        (λ _. expire_trials_kept v (suc k) now ts _ h')

  expire_subscription_kept :
      (v : Env) (now : ℕ) (s : Subscription) (db : Db) → P db → P (expire_subscription v now s db).1
  unfolding expire_subscription
  expire_subscription_kept v now s db h =
      let expired : Db =
        (update_subscription_status (v.down 0) (v.now 0) s.id SubscriptionStatus.expired db).1 in
      let h1 = expire_keep (v.down 0) (v.now 0) s.id db h in
      let h2 =
        update_tenant_status_kept P tenant_keep (from 1 v) s.tenant_id TenantStatus.suspended
          expired h1 in
      elim (Bool-cases (is_before s.expires_at now)) [
        | inl late ↦ rw late h2
        | inr soon ↦ rw soon h
      ]

  expire_subscriptions_kept :
      (v : Env) (k now : ℕ) (ss : List Subscription) (db : Db)
      → P db
      → P (expire_subscriptions v k now ss db).1
  unfolding expire_subscriptions
  expire_subscriptions_kept v k now [] db h = h
  expire_subscriptions_kept v k now (s ∷ ss) db h =
      let h' = expire_subscription_kept (from k v) now s db h in
      bind_writes P (expire_subscription (from k v) now s)
        (λ _. expire_subscriptions v (3 + k) now ss) db h'
        (λ _. expire_subscriptions_kept v (3 + k) now ss _ h')

  pub sweep_kept : (v : Env) (db : Db) → P db → P (process_expired_subscriptions v db).1
  unfolding process_expired_subscriptions
  sweep_kept v db h =
      let loop : ℕ → List Subscription → Action Db (Unit {0}) =
        λ n. expire_subscriptions v (2 + n) (v.now 0) in
      let list : ℕ → Action Db (List Subscription) =
        λ n. statement (v.down (suc n)) (gets current_subscriptions) in
      bind_keeps P (statement (v.down 0) (gets tenants_in_use))
        (λ ts. expire_trials v 1 (v.now 0) ts >> (list (length ts) >>= loop (length ts))) db
        (gets_read_only (v.down 0) tenants_in_use db) h
        (λ ts _.
          let h' = expire_trials_kept v 1 (v.now 0) ts db h in
          let mid : Db = (expire_trials v 1 (v.now 0) ts db).1 in
          bind_writes P (expire_trials v 1 (v.now 0) ts)
            (λ _. list (length ts) >>= loop (length ts)) db h'
            (λ _.
              bind_keeps P (list (length ts)) (loop (length ts)) mid
                (gets_read_only (v.down (suc (length ts))) current_subscriptions mid) h'
                (λ ss _. expire_subscriptions_kept v (2 + length ts) (v.now 0) ss mid h')))
