-- ===== src/Seating/AutoTotal.antt =====
-- `AutoAssign` of internal/service/seating_service.go accounts for every guest of the roster.
use guestbook.Prelude.{ℕ, suc, ◌+◌, ◌≡◌, false, List, [], ◌∷◌, arith, length}
use guestbook.Action.{ok, Env, from}
use guestbook.Store.{EventGuest, Db}
use guestbook.Seating.Repo.{tables_of, roster, seats_of}
use guestbook.Seating.Auto.{
  Progress, Plan, seat_one, seat_all, AutoAssigned, plan_of, start, auto_assign,
}

-- Every round moves one counter by one.
seat_one_total :
    (v : Env) (plan : Plan) (eg : EventGuest) (s : Progress)
    → (seat_one v plan eg s).assigned + (seat_one v plan eg s).skipped ≡ s.assigned + s.skipped + 1
unfolding seat_one
seat_one_total v plan eg s = ground arith

seat_all_total :
    (v : Env) (plan : Plan) (egs : List EventGuest) (s : Progress)
    → (seat_all v plan egs s).assigned + (seat_all v plan egs s).skipped
      ≡ s.assigned + s.skipped + length egs
unfolding seat_all
seat_all_total v plan [] s = omega arith
seat_all_total v plan (eg ∷ egs) s = omega (
  arith,
  seat_one_total v plan eg s,
  seat_all_total (from (suc (length plan.tables)) v) plan egs (seat_one v plan eg s),
)

-- When the three readings succeed, automatic assignment succeeds, and the numbers that it reports
-- add up to the part of the active roster that it looked at.
pub auto_assign_total :
    (v : Env) (tenant event by : ℕ) (db : Db)
    → v.down 0 ≡ false
    → v.down 1 ≡ false
    → v.down 2 ≡ false
    → (r : AutoAssigned) × ((auto_assign v tenant event by db).0 ≡ ok r)
      × (r.assigned + r.skipped ≡ length (roster tenant event db))
unfolding auto_assign
auto_assign_total v tenant event by db up0 up1 up2 =
    let tables = tables_of tenant event db in
    let s =
      seat_all (from 3 v) (plan_of tenant by tables (seats_of tenant event db))
        (roster tenant event db) (start tables db) in
    (
      record { assigned = s.assigned; skipped = s.skipped },
      ground (arith, up0, up1, up2),
      omega (
        arith,
        seat_all_total (from 3 v) (plan_of tenant by tables (seats_of tenant event db))
            (roster tenant event db) (start tables db),
      ),
    )
