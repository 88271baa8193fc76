-- ===== src/Billing/PaidOnce.antt =====
-- A payment that succeeded stays as it is, whatever is served after it
-- (internal/service/billing_service.go).
use guestbook.Prelude.{
  String, str_eq, eq_iff, ◌≡◌, ap, ◌∙◌, Bool, true, false, some, List, [], ◌∷◌, find_first, any,
  any_of_find_first, find_first-passes, Bool-cases, inl, inr, arith,
}
use guestbook.Store.{Db, SubscriptionStatus, Payment, is_paid}
use guestbook.Billing.Repo.{is_payment_for, find_payment, insert_payment}
use guestbook.Billing.Service.{Client}
use guestbook.Billing.Paid.{Holds, status_keep, tenant_keep, webhook_keep}
use guestbook.Billing.Kept.{checkout_kept, look_kept, sweep_kept}
use guestbook.Billing.Requests.{Request, serve, serve_all}

module _ (order : String) (pay : Payment) where
  -- An order's id is given once.
  insert_payment_keep :
      (down : Bool) (p : Payment) (db : Db)
      → Holds order pay db
      → Holds order pay (insert_payment down p db).1
  unfolding insert_payment find_payment find_first
  insert_payment_keep true p db h = h
  insert_payment_keep false p db h = elim (Bool-cases (str_eq p.midtrans_order_id order)) [
    | inl same ↦
        let taken : any (is_payment_for p.midtrans_order_id) db.payments ≡ true =
          ap (λ o. any (is_payment_for o) db.payments) ((eq_iff p.midtrans_order_id order).0 same)
          ∙ any_of_find_first (is_payment_for order) (is_payment_for order) db.payments pay h
              (find_first-passes (is_payment_for order) db.payments pay h) in
        rw taken h
    | inr ne ↦ ground (arith, ne, h)
  ]

  serve_keep :
      (c : Client) (r : Request) (db : Db)
      → is_paid pay.status ≡ true
      → Holds order pay db
      → Holds order pay (serve c r db)
  unfolding serve
  serve_keep c (Request.notify v n body) db paid h = webhook_keep order pay c v n body db paid h
  serve_keep c (Request.order v tenant user req) db paid h =
      checkout_kept (Holds order pay) insert_payment_keep c v tenant user req db h
  serve_keep c (Request.look v tenant) db paid h =
      look_kept (Holds order pay) (tenant_keep order pay)
        (λ down now id. status_keep order pay down now id SubscriptionStatus.expired) v tenant db h
  serve_keep c (Request.sweep v) db paid h =
      sweep_kept (Holds order pay) (tenant_keep order pay)
        (λ down now id. status_keep order pay down now id SubscriptionStatus.expired) v db h

-- From a store where the order's payment has succeeded, whatever notifications, checkouts, status
-- requests and sweeps are served, one after the other and with any of their statements failing, the
-- order's payment stays that same row: no repeated or later notification marks it failed or expired
-- or gives it another subscription.
pub serve_all-Holds :
    (c : Client) (order : String) (pay : Payment) (rs : List Request) (db : Db)
    → is_paid pay.status ≡ true
    → find_payment order db ≡ some pay
    → find_payment order (serve_all c rs db) ≡ some pay
unfolding serve_all
serve_all-Holds c order pay [] db paid h = h
serve_all-Holds c order pay (r ∷ rs) db paid h =
    serve_all-Holds c order pay rs (serve c r db) paid (serve_keep order pay c r db paid h)
