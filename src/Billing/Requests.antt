-- ===== src/Billing/Requests.antt =====
-- Sequences of calls of internal/service/billing_service.go, served one after the other, each in
-- its own environment.
use guestbook.Prelude.{ℕ, String, List, [], ◌∷◌}
use guestbook.Action.{Env}
use guestbook.Store.{Db}
use guestbook.Billing.Service.{
  Client, NotificationPayload, CheckoutRequest, checkout, handle_webhook_notification,
}
use guestbook.Billing.Expiry.{get_subscription_status, process_expired_subscriptions}

pub data Request : Type 0 where
  notify : Env → NotificationPayload → String → Request
  order : Env → ℕ → ℕ → CheckoutRequest → Request
  look : Env → ℕ → Request
  sweep : Env → Request

unfoldable pub serve : Client → Request → Db → Db
serve c (notify v n body) db = (handle_webhook_notification c v n body db).1
serve c (order v tenant user req) db = (checkout c v tenant user req db).1
serve c (look v tenant) db = (get_subscription_status v tenant db).1
serve c (sweep v) db = (process_expired_subscriptions v db).1

unfoldable pub serve_all : Client → List Request → Db → Db
serve_all c [] db = db
serve_all c (r ∷ rs) db = serve_all c rs (serve c r db)
