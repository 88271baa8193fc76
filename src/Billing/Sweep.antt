-- ===== src/Billing/Sweep.antt =====
-- What the daily sweep leaves (`ProcessExpiredSubscriptions` of
-- internal/service/billing_service.go).
use guestbook.Prelude.{
  ℕ, suc, ◌+◌, ◌==◌, ==_iff, ◌≡◌, refl, sym, subst, Bool, true, false, List, [], ◌∷◌, any,
  update_if, select, Bool-cases, inl, inr, arith, ◌&&◌, All, All-imp, All-update_if, length,
}
use guestbook.Action.{Env, from, Action, ok, ◌>>=◌, ◌>>◌, statement, gets}
use guestbook.Store.{
  is_trial, Db, Tenant, TenantStatus, SubscriptionStatus, Subscription, is_current,
}
use guestbook.Billing.Repo.{
  update_subscription_status, update_tenant, current_subscriptions, tenants_in_use,
}
use guestbook.Billing.Service.{update_tenant_status}
use guestbook.Billing.Expiry.{
  is_before, expire_trial, expire_trials, expire_subscription, expire_subscriptions,
  process_expired_subscriptions,
}
use guestbook.Billing.Kept.{update_tenant_status_kept}

-- A current subscription whose end has passed.
abbrev pub is_stale : ℕ → Subscription → Bool
is_stale now s = is_current s.status && is_before s.expires_at now

-- The turn of the loop that ends a row.
abbrev ends : ℕ → Subscription → Subscription → Bool
ends now x s = s.id == x.id && is_before s.expires_at now

-- Each row that has to end is still to come.
abbrev Pending : ℕ → List Subscription → List Subscription → Type 0
Pending now rest = All (λ x. is_stale now x ≡ true → any (ends now x) rest ≡ true)

Pending-at_first :
    (now : ℕ) (xs : List Subscription) → Pending now (select (λ s. is_current s.status) xs) xs
unfolding any select
Pending-at_first now [] = tt
Pending-at_first now (x ∷ xs) =
    let rest = select (λ s. is_current s.status) xs in
    (
      λ stale. ground (arith, stale, ==_iff x.id x.id),
      All-imp _ _ xs (λ y h stale. ground (arith, h stale)) (Pending-at_first now xs),
    )

none-Pending :
    (now : ℕ) (xs : List Subscription) → Pending now [] xs → any (is_stale now) xs ≡ false
unfolding any
none-Pending now [] h = refl
none-Pending now (x ∷ xs) h = elim (Bool-cases (is_stale now x)) [
  | inl stale ↦ absurd (ground (arith, h.0 stale))
  | inr fresh ↦ rw fresh (none-Pending now xs h.1)
]

-- A turn for a subscription that has ended.
Pending-hit :
    (now at : ℕ) (s : Subscription) (rest xs : List Subscription)
    → Pending now (s ∷ rest) xs
    → Pending now rest (
        update_if
          (λ x. x.id == s.id)
          (λ x. record x { status = SubscriptionStatus.expired; updated_at = at })
          xs)
unfolding any
Pending-hit now at s rest xs h =
    All-update_if _ _ (λ x. x.id == s.id) _ xs (λ x hit p stale. cc stale)
      (λ x miss p stale. ground (arith, miss, p stale, ==_iff s.id x.id, ==_iff x.id s.id)) h

-- A turn for one that has not.
Pending-miss :
    (now : ℕ) (s : Subscription) (rest xs : List Subscription)
    → is_before s.expires_at now ≡ false
    → Pending now (s ∷ rest) xs
    → Pending now rest xs
unfolding any
Pending-miss now s rest xs soon h = All-imp _ _ xs (λ x p stale. ground (arith, soon, p stale)) h

update_same :
    (down : Bool) (t : Tenant) (db : Db) (xs : List Subscription)
    → db.subscriptions ≡ xs
    → (update_tenant down t db).1.subscriptions ≡ xs
unfolding update_tenant
update_same down t db xs h = ground (arith, h)

tenant_same :
    (v : Env) (id : ℕ) (status : TenantStatus) (db : Db) (xs : List Subscription)
    → db.subscriptions ≡ xs
    → (update_tenant_status v id status db).1.subscriptions ≡ xs
tenant_same v id status db xs h =
    update_tenant_status_kept (λ s. s.subscriptions ≡ xs) (λ down t s e. update_same down t s xs e)
      v id status db h

-- A turn of the loop does not fail.
turn_ok :
    (v : Env) (now : ℕ) (s : Subscription) (k : Action Db (Unit {0})) (db : Db)
    → (expire_subscription v now s >> k) db ≡ k (expire_subscription v now s db).1
unfolding expire_subscription
turn_ok v now s k db = elim (Bool-cases (is_before s.expires_at now)) [
  | inl late ↦ rw late refl
  | inr soon ↦ rw soon refl
]

turn-Pending :
    (v : Env) (now : ℕ) (s : Subscription) (rest : List Subscription) (db : Db)
    → v.down 0 ≡ false
    → Pending now (s ∷ rest) db.subscriptions
    → Pending now rest (expire_subscription v now s db).1.subscriptions
unfolding expire_subscription update_subscription_status
turn-Pending v now s rest db up h = elim (Bool-cases (is_before s.expires_at now)) [
  | inl late ↦
      let ended =
        update_if (λ x. x.id == s.id)
          (λ x. record x { status = SubscriptionStatus.expired; updated_at = v.now 0 })
          db.subscriptions in
      rw (late, up)
        (subst (Pending now rest)
          (sym (
            tenant_same (from 1 v) s.tenant_id TenantStatus.suspended
              (record db { subscriptions = ended }) ended refl))
          (Pending-hit now (v.now 0) s rest db.subscriptions h))
  | inr soon ↦ rw soon (Pending-miss now s rest db.subscriptions soon h)
]

loop_ends :
    (v : Env) (k now : ℕ) (ss : List Subscription) (db : Db)
    → ((n : ℕ) → v.down n ≡ false)
    → Pending now ss db.subscriptions
    → ((expire_subscriptions v k now ss db).0 ≡ ok tt)
      × (any (is_stale now) (expire_subscriptions v k now ss db).1.subscriptions ≡ false)
unfolding expire_subscriptions
loop_ends v k now [] db up h = (refl, none-Pending now db.subscriptions h)
loop_ends v k now (s ∷ ss) db up h =
    rw (turn_ok (from k v) now s (expire_subscriptions v (3 + k) now ss) db) (
      loop_ends v (3 + k) now ss (expire_subscription (from k v) now s db).1 up
        (turn-Pending (from k v) now s ss db (up (k + 0)) h))

-- The loop over the tenants does not fail.
trials_ok :
    (v : Env) (k now : ℕ) (ts : List Tenant) (m : Action Db (Unit {0})) (db : Db)
    → (expire_trials v k now ts >> m) db ≡ m (expire_trials v k now ts db).1
unfolding expire_trials expire_trial
trials_ok v k now [] m db = refl
trials_ok v k now (t ∷ ts) m db =
    elim (Bool-cases (is_trial t.status && is_before t.trial_ends_at now)) [
      | inl due ↦
          let ended = record t { status = TenantStatus.other "trial_expired" } in
          rw due (trials_ok v (suc k) now ts m (update_tenant (v.down k) ended db).1)
      | inr early ↦ rw early (trials_ok v (suc k) now ts m db)
    ]

-- When no statement fails, the sweep succeeds and leaves no current subscription, of any tenant,
-- whose end lay before the sweep's reading of the clock.
pub sweep_ends :
    (v : Env) (db : Db)
    → ((n : ℕ) → v.down n ≡ false)
    → ((process_expired_subscriptions v db).0 ≡ ok tt)
      × (any (is_stale (v.now 0)) (process_expired_subscriptions v db).1.subscriptions ≡ false)
unfolding process_expired_subscriptions current_subscriptions tenants_in_use
sweep_ends v db up =
    let ts = tenants_in_use db in
    let now = v.now 0 in
    let mid : Db = (expire_trials v 1 now ts db).1 in
    let list : Action Db (List Subscription) =
      statement (v.down (suc (length ts))) (gets current_subscriptions) in
    let loop : List Subscription → Action Db (Unit {0}) =
      expire_subscriptions v (2 + length ts) now in
    rw (up 0, trials_ok v 1 now ts (list >>= loop) db, up (suc (length ts)))
      (loop_ends v (2 + length ts) now (current_subscriptions mid) mid up
        (Pending-at_first now mid.subscriptions))
