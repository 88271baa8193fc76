-- ===== src/Billing/Expiry.antt =====
-- The end of trials and subscriptions: `GetSubscriptionStatus` and `ProcessExpiredSubscriptions` of
-- internal/service/billing_service.go.
--
-- A date of the answer is a time here and a text there. The reminders are left out: mails only.
use guestbook.Prelude.{
  ℕ, suc, ◌+◌, ltb, ℤ, pos, negsuc, String, Bool, true, false, ◌&&◌, Option, none, some, List, [],
  ◌∷◌, if◌then◌else◌, length,
}
use guestbook.Action.{
  is_not_found, Result, ok, err, Action, ◌>>=◌, ◌>>◌, pure, raise, gets, statement, attempt, ignore,
  Env, from,
}
use guestbook.Store.{
  Db, Plan, Tenant, TenantStatus, PlanFeatures, SubscriptionStatus, Subscription, is_trial,
}
use guestbook.Billing.Calendar.{days_until}
use guestbook.Billing.Repo.{
  get_plan, get_current, update_subscription_status, current_subscriptions, get_tenant,
  update_tenant, tenants_in_use,
}
use guestbook.Billing.Service.{update_tenant_status}

pub record SubscriptionStatusResponse : Type 0 where
  pub status : String
  pub plan_name : String
  pub display_name : String
  pub billing_cycle : String
  pub days_left : ℤ
  pub expires_at : Option ℕ
  pub max_guests : Option ℤ
  pub max_events : Option ℤ
  pub max_team_members : Option ℤ
  pub features : PlanFeatures

-- `t.Before(now)` and `now.After(t)`, for a time that may be missing.
abbrev pub is_before : Option ℕ → ℕ → Bool
is_before none now = false
is_before (some t) now = ltb t now

-- `DaysUntilExpiry`
abbrev pub days_until_expiry : ℕ → Subscription → ℤ
days_until_expiry now s = elim s.expires_at [ none ↦ pos 9999 | some t ↦ days_until now t ]

abbrev pub no_features : PlanFeatures
no_features = record {
  whatsapp_campaign = false;
  custom_template = false;
  webhook = false;
  advanced_reports = false;
  remove_branding = false;
  priority_support = false;
}

abbrev pub trial_features : PlanFeatures
trial_features = record {
  whatsapp_campaign = true;
  custom_template = true;
  webhook = true;
  advanced_reports = true;
  remove_branding = false;
  priority_support = false;
}

-- An answer without a plan's limits.
abbrev unlimited :
    String → String → String → String → ℤ → Option ℕ → PlanFeatures → SubscriptionStatusResponse
unlimited status plan display cycle days until features = record {
  status = status;
  plan_name = plan;
  display_name = display;
  billing_cycle = cycle;
  days_left = days;
  expires_at = until;
  max_guests = none;
  max_events = none;
  max_team_members = none;
  features = features;
}

-- `string(tenant.Status)`
abbrev pub tenant_status_text : TenantStatus → String
tenant_status_text TenantStatus.trial = "trial"
tenant_status_text TenantStatus.active = "active"
tenant_status_text TenantStatus.suspended = "suspended"
tenant_status_text TenantStatus.cancelled = "cancelled"
tenant_status_text (TenantStatus.other s) = s

-- The answer for a tenant with a current subscription to the plan.
unfoldable pub plan_status : Env → ℕ → Subscription → Plan → Action Db SubscriptionStatusResponse
plan_status v tenant s plan =
    if is_before s.expires_at (v.now 0)
    then (ignore (update_subscription_status (v.down 3) (v.now 1) s.id SubscriptionStatus.expired)
        >> ignore (update_tenant_status (from 4 v) tenant TenantStatus.suspended)
        >> pure
            (unlimited "suspended" plan.name plan.display_name "" (negsuc 0) none plan.features))
    else pure (record {
      status = "active";
      plan_name = plan.name;
      display_name = plan.display_name;
      billing_cycle = s.billing_cycle;
      days_left = days_until_expiry (v.now 1) s;
      expires_at = s.expires_at;
      max_guests = plan.max_guests;
      max_events = plan.max_events;
      max_team_members = plan.max_team_members;
      features = plan.features;
    })

-- The answer for a tenant with a current subscription.
unfoldable pub paid_status : Env → ℕ → Subscription → Action Db SubscriptionStatusResponse
paid_status v tenant s = do plan ← get_plan (v.down 2) s.plan_id; plan_status v tenant s plan

-- The answer for a tenant without one.
unfoldable pub unpaid_status : Env → ℕ → Tenant → Action Db SubscriptionStatusResponse
unpaid_status v id t =
    let inactive = pure (
      unlimited (tenant_status_text t.status) "none" "Tidak Aktif" "" (negsuc 0) none
        no_features) in
    let ended : Action Db SubscriptionStatusResponse =
      ignore (update_tenant_status (from 2 v) id TenantStatus.suspended)
      >> pure (unlimited "trial_expired" "trial" "Trial Berakhir" "" (negsuc 0) none no_features) in
    elim t.trial_ends_at [
      | none ↦ inactive
      | some e ↦
          if is_trial t.status
          then (if ltb e (v.now 0)
              then ended
              else pure (
                  unlimited "trial" "trial" "Trial" "trial" (days_until (v.now 1) e) (some e)
                    trial_features))
          else inactive
    ]

-- What follows the search for a current subscription.
unfoldable pub answer_status :
    Env → ℕ → Tenant → Result Subscription → Action Db SubscriptionStatusResponse
answer_status v id t (ok s) = paid_status v id s
answer_status v id t (err e) = if is_not_found e then unpaid_status v id t else raise e

-- `GetSubscriptionStatus`
unfoldable pub get_subscription_status : Env → ℕ → Action Db SubscriptionStatusResponse
get_subscription_status v id = do
  tenant ← get_tenant (v.down 0) id
  found ← attempt (get_current (v.down 1) id)
  answer_status v id tenant found

-- One turn of the loop over the tenants.
unfoldable pub expire_trial : Bool → ℕ → Tenant → Action Db (Unit {0})
expire_trial down now t =
    if is_trial t.status && is_before t.trial_ends_at now
    then ignore (update_tenant down (record t { status = TenantStatus.other "trial_expired" }))
    else pure tt

-- The loop over the tenants; its first statement is the k-th.
unfoldable pub expire_trials : Env → ℕ → ℕ → List Tenant → Action Db (Unit {0})
expire_trials v k now [] = pure tt
expire_trials v k now (t ∷ ts) = expire_trial (v.down k) now t >> expire_trials v (suc k) now ts

-- One turn of the loop over the subscriptions.
unfoldable pub expire_subscription : Env → ℕ → Subscription → Action Db (Unit {0})
expire_subscription v now s =
    if is_before s.expires_at now
    then (ignore (update_subscription_status (v.down 0) (v.now 0) s.id SubscriptionStatus.expired)
        >> ignore (update_tenant_status (from 1 v) s.tenant_id TenantStatus.suspended))
    else pure tt

-- The loop over the subscriptions; its first statement is the k-th.
unfoldable pub expire_subscriptions : Env → ℕ → ℕ → List Subscription → Action Db (Unit {0})
expire_subscriptions v k now [] = pure tt
expire_subscriptions v k now (s ∷ ss) =
    expire_subscription (from k v) now s >> expire_subscriptions v (3 + k) now ss

-- `ProcessExpiredSubscriptions`
unfoldable pub process_expired_subscriptions : Env → Action Db (Unit {0})
process_expired_subscriptions v = do
  tenants ← statement (v.down 0) (gets tenants_in_use)
  expire_trials v 1 (v.now 0) tenants
  subs ← statement (v.down (suc (length tenants))) (gets current_subscriptions)
  expire_subscriptions v (2 + length tenants) (v.now 0) subs
