-- ===== src/Seating/Auto.antt =====
-- `AutoAssign` of internal/service/seating_service.go. The two Go maps are functions with the
-- value 0 on a missing key; the loops are recursions on the roster and on the tables.
use guestbook.Prelude.{
  ℕ, suc, ◌+◌, ◌==◌, ℤ, pos, ltb_ℤ, ◌+ℤ◌, Bool, true, false, not, ◌&&◌, none, some, List, [], ◌∷◌,
  if◌then◌else◌, any, length,
}
use guestbook.Action.{ok, err, Action, Env, from, gets, statement, ◌>>=◌}
use guestbook.Store.{Table, SeatAssignment, EventGuest, Db, find_guest}
use guestbook.Seating.Repo.{TableWithOccupancy, tables_of, roster, seats_of, assign_seat}
use guestbook.Seating.Service.{is_vip}

-- `m[key] = value`
unfoldable pub put : (ℕ → ℤ) → ℕ → ℤ → ℕ → ℤ
put m key value k = if k == key then value else m k

-- `tableCapacities` and `tableOccupancies`: the unlocked tables, in the order of the list.
unfoldable pub capacities : (ℕ → ℤ) → List TableWithOccupancy → ℕ → ℤ
capacities m [] = m
capacities m (t ∷ ts) =
    capacities (if t.table.is_locked then m else put m t.table.id t.table.capacity) ts

unfoldable pub occupancies : (ℕ → ℤ) → List TableWithOccupancy → ℕ → ℤ
occupancies m [] = m
occupancies m (t ∷ ts) =
    occupancies (if t.table.is_locked then m else put m t.table.id (pos t.occupancy)) ts

-- Whether a table that has room takes the guest: a VIP table reads the guest's type, and a guest
-- that cannot be read is not seated there.
unfoldable pub admits : Bool → ℕ → Db → ℕ → Table → Bool
admits down tenant db guest t =
    if not t.vip_only
    then true
    else if down
    then false
    else elim (find_guest tenant guest db) [ none ↦ false | some g ↦ is_vip g ]

-- The inner loop: the first unlocked table with room that admits the guest, or `uuid.Nil`. The
-- k-th table's read is the k-th statement.
unfoldable pub choose_table : Env → ℕ → Db → (ℕ → ℤ) → (ℕ → ℤ) → ℕ → List TableWithOccupancy → ℕ
choose_table v tenant db caps occs guest [] = 0
choose_table v tenant db caps occs guest (t ∷ ts) =
    let rest = choose_table (from 1 v) tenant db caps occs guest ts in
    if not t.table.is_locked
      && (ltb_ℤ (occs t.table.id) (caps t.table.id) && admits (v.down 0) tenant db guest t.table)
    then t.table.id
    else rest

pub record Progress : Type 0 where
  pub assigned : ℕ
  pub skipped : ℕ
  pub occs : ℕ → ℤ
  pub db : Db

-- What the loops read and do not change.
pub record Plan : Type 0 where
  pub tenant : ℕ
  pub assigned_by : ℕ
  pub tables : List TableWithOccupancy
  pub taken : List SeatAssignment
  pub caps : ℕ → ℤ

abbrev pub skip : Progress → Progress
skip s = record s { skipped = s.skipped + 1 }

-- The seat that a roster entry is given.
abbrev pub new_seat : Env → Plan → EventGuest → ℕ → SeatAssignment
new_seat v plan eg table = record {
  table_id = table;
  guest_id = eg.guest_id;
  event_guest_id = some eg.id;
  seat_number = none;
  assigned_by = plan.assigned_by;
  assigned_at = v.now 0;
}

-- The insertion at the chosen table. Its statement follows those of the inner loop.
unfoldable pub seat_at : Env → Plan → EventGuest → Progress → ℕ → Progress
seat_at v plan eg s table =
    let (r, db') = assign_seat (v.down (length plan.tables)) (new_seat v plan eg table) s.db in
    elim r [
      | ok _ ↦ record s {
        assigned = s.assigned + 1;
        occs = put s.occs table (s.occs table +ℤ pos 1);
        db = db';
      }
      | err _ ↦ skip s
    ]

-- One round of the outer loop.
unfoldable pub seat_one : Env → Plan → EventGuest → Progress → Progress
unfolding seat_at
seat_one v plan eg s =
    if any (λ a. a.guest_id == eg.guest_id) plan.taken
    then skip s
    else let table = choose_table v plan.tenant s.db plan.caps s.occs eg.guest_id plan.tables in
      if table == 0 then skip s else seat_at v plan eg s table

-- Each round has its own part of the environment.
unfoldable pub seat_all : Env → Plan → List EventGuest → Progress → Progress
seat_all v plan [] s = s
seat_all v plan (eg ∷ egs) s =
    seat_all (from (suc (length plan.tables)) v) plan egs (seat_one v plan eg s)

pub record AutoAssigned : Type 0 where
  pub assigned : ℕ
  pub skipped : ℕ

-- What the loops start from.
abbrev pub plan_of : ℕ → ℕ → List TableWithOccupancy → List SeatAssignment → Plan
plan_of tenant assigned_by tables taken = record {
  tenant = tenant;
  assigned_by = assigned_by;
  tables = tables;
  taken = taken;
  caps = capacities (λ _. pos 0) tables;
}

abbrev pub start : List TableWithOccupancy → Db → Progress
start tables db = record {
  assigned = 0;
  skipped = 0;
  occs = occupancies (λ _. pos 0) tables;
  db = db;
}

-- `AutoAssign`
unfoldable pub auto_assign : Env → ℕ → ℕ → ℕ → Action Db AutoAssigned
auto_assign v tenant event assigned_by = do
  tables ← statement (v.down 0) (gets (tables_of tenant event))
  guests ← statement (v.down 1) (gets (roster tenant event))
  taken ← statement (v.down 2) (gets (seats_of tenant event))
  λ db.
      let s =
        seat_all (from 3 v) (plan_of tenant assigned_by tables taken) guests (start tables db) in
      (ok (record { assigned = s.assigned; skipped = s.skipped }), s.db)
