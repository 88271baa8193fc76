-- ===== src/Seating/AutoCapacity.antt =====
-- `AutoAssign` of internal/service/seating_service.go keeps every table within its capacity.
use guestbook.Prelude.{
  ℕ, suc, ◌+◌, ◌==◌, ℤ, pos, ◌+ℤ◌, ◌≤ℤ◌, ◌<ℤ◌, ltb_ℤ, +ℤ_parts, ◌≡◌, refl, sym, subst, ◌⊎◌, inl,
  inr, false, not, ◌&&◌, some, List, [], ◌∷◌, arith, find_first, any, All, All-imp, All-zip, length,
  Bool-cases,
}
use guestbook.Action.{Env, from}
use guestbook.Store.{Table, SeatAssignment, EventGuest, Db, is_null}
use guestbook.Seating.Repo.{
  TableWithOccupancy, occupancy_of, tables_of, roster, seats_of, upsert_seat,
}
use guestbook.Seating.Auto.{
  put, capacities, occupancies, admits, choose_table, Progress, Plan, skip, new_seat, seat_at,
  seat_one, seat_all, plan_of, start, auto_assign,
}
use guestbook.Seating.Capacity.{IsSeated, occupancy_of-upsert_seat, upsert_seat-IsSeated}
use guestbook.Seating.Maps.{
  capacities-entry, occupancies-entry, listed-IsKeyed, listed-IsListed, IsListed,
}

-- What the inner loop returns: no table, or an unlocked table of the list whose entry is below its
-- capacity.
choose_table-found :
    (P : TableWithOccupancy → Type 0) (v : Env) (tenant : ℕ) (db : Db) (caps occs : ℕ → ℤ)
    (guest : ℕ) (ts : List TableWithOccupancy)
    → All P ts
    → (choose_table v tenant db caps occs guest ts ≡ 0)
      ⊎ ((t : TableWithOccupancy) × P t
          × (choose_table v tenant db caps occs guest ts ≡ t.table.id)
          × (t.table.is_locked ≡ false)
          × (occs t.table.id <ℤ caps t.table.id))
unfolding choose_table
choose_table-found P v tenant db caps occs guest [] h = inl refl
choose_table-found P v tenant db caps occs guest (t ∷ ts) h =
    elim (Bool-cases (
      not t.table.is_locked
      && (ltb_ℤ (occs t.table.id) (caps t.table.id)
          && admits (v.down 0) tenant db guest t.table))) [
            | inl pass ↦ inr (t, h.0, rw pass, ground (arith, pass), ground (arith, pass))
            | inr fail ↦ elim (choose_table-found P (from 1 v) tenant db caps occs guest ts h.1) [
              | inl nowhere ↦ inl (rw fail nowhere)
              | inr (r, pr, at, unlocked, room) ↦ inr (r, pr, rw fail at, unlocked, room)
            ]
          ]

-- What the plan says of a listed table, over the tables of the store.
abbrev IsPlanned : List Table → (ℕ → ℤ) → TableWithOccupancy → Type 0
IsPlanned tables caps t =
    (find_first (λ x. x.id == t.table.id) tables ≡ some t.table)
    × (t.table.is_locked ≡ false → caps t.table.id ≡ t.table.capacity)

-- The entry of an unlocked table is at least its number of guests.
abbrev IsCounted : Db → (ℕ → ℤ) → TableWithOccupancy → Type 0
IsCounted db occs t =
    t.table.is_locked ≡ false → pos (occupancy_of t.table.id db.seats) ≤ℤ occs t.table.id

record IsInvariant (tables : List Table) (plan : Plan) (s : Progress) : Type 0 where
  same_tables : s.db.tables ≡ tables
  seated : IsSeated s.db
  counted : All (IsCounted s.db s.occs) plan.tables

module _ (tables : List Table) (plan : Plan) where
  -- The entry of the table that takes the guest grows by one, and so does its count, at most.
  seated-IsCounted :
      (db : Db) (occs : ℕ → ℤ) (new : SeatAssignment) (t : TableWithOccupancy)
      → IsCounted db occs t
      → IsCounted
          (record db { seats = upsert_seat new db.seats })
          (put occs new.table_id (occs new.table_id +ℤ pos 1))
          t
  unfolding put
  seated-IsCounted db occs new t h unlocked = elim (Bool-cases (new.table_id == t.table.id)) [
    | inl here ↦ ground (
      arith,
      h unlocked,
      here,
      occupancy_of-upsert_seat t.table.id new db.seats,
      +ℤ_parts (occs new.table_id) (pos 1),
    )
    | inr there ↦
        ground (arith, h unlocked, there, occupancy_of-upsert_seat t.table.id new db.seats)
  ]

  -- What a successful insertion leaves.
  abbrev taken_seat : Env → EventGuest → Progress → ℕ → Progress
  taken_seat v eg s table = record s {
    assigned = s.assigned + 1;
    occs = put s.occs table (s.occs table +ℤ pos 1);
    db = record s.db { seats = upsert_seat (new_seat v plan eg table) s.db.seats };
  }

  pub seat_at_effect :
      (v : Env) (eg : EventGuest) (s : Progress) (table : ℕ)
      → (seat_at v plan eg s table ≡ skip s) ⊎ (seat_at v plan eg s table ≡ taken_seat v eg s table)
  unfolding seat_at
  seat_at_effect v eg s table = ground arith

  seat_at-IsInvariant :
      (v : Env) (eg : EventGuest) (s : Progress) (t : TableWithOccupancy)
      → IsPlanned tables plan.caps t
      → t.table.is_locked ≡ false
      → pos (occupancy_of t.table.id s.db.seats) <ℤ t.table.capacity
      → IsInvariant tables plan s
      → IsInvariant tables plan (seat_at v plan eg s t.table.id)
  seat_at-IsInvariant v eg s t planned unlocked room h =
      let new = new_seat v plan eg t.table.id in
      elim (seat_at_effect v eg s t.table.id) [
        | inl skipped ↦
            rw skipped
              (record { same_tables = h.same_tables; seated = h.seated; counted = h.counted })
        | inr taken ↦ rw taken (record {
          same_tables = h.same_tables;
          seated =
              upsert_seat-IsSeated (λ x. x.id == t.table.id) s.db t.table new
                (λ x q. ground (arith, q)) (rw h.same_tables planned.0) (inr room) h.seated;
          counted =
              All-imp (IsCounted s.db s.occs)
                (IsCounted (taken_seat v eg s t.table.id).db (taken_seat v eg s t.table.id).occs)
                plan.tables (seated-IsCounted s.db s.occs new) h.counted;
        })
      ]

  module _ (planned : All (IsPlanned tables plan.caps) plan.tables) where
    -- A round skips the guest, or seats it at a planned table with room.
    seat_one_effect :
        (v : Env) (eg : EventGuest) (s : Progress)
        → All (IsCounted s.db s.occs) plan.tables
        → (seat_one v plan eg s ≡ skip s)
          ⊎ ((t : TableWithOccupancy) × (IsPlanned tables plan.caps t × IsCounted s.db s.occs t)
              × (t.table.is_locked ≡ false)
              × (s.occs t.table.id <ℤ plan.caps t.table.id)
              × (seat_one v plan eg s ≡ seat_at v plan eg s t.table.id))
    unfolding seat_one
    seat_one_effect v eg s counted =
        elim (Bool-cases (any (λ a. a.guest_id == eg.guest_id) plan.taken)) [
          | inl taken ↦ inl (rw (taken, seat_one))
          | inr free ↦
              elim (choose_table-found (λ t. IsPlanned tables plan.caps t × IsCounted s.db s.occs t)
                v plan.tenant s.db plan.caps s.occs eg.guest_id plan.tables
                (All-zip (IsPlanned tables plan.caps) (IsCounted s.db s.occs)
                  (λ t. IsPlanned tables plan.caps t × IsCounted s.db s.occs t) plan.tables
                  (λ t p c. (p, c)) planned counted)) [
                    | inl nowhere ↦ inl (rw (free, nowhere, seat_one))
                    | inr (t, known, at, unlocked, room) ↦ elim (Bool-cases (t.table.id == 0)) [
                      | inl nil ↦ inl (rw (free, at, nil, seat_one))
                      | inr some_id ↦
                          inr (t, known, unlocked, room, rw (free, at, some_id, seat_one))
                    ]
                  ]
        ]

    seat_one-IsInvariant :
        (v : Env) (eg : EventGuest) (s : Progress)
        → IsInvariant tables plan s
        → IsInvariant tables plan (seat_one v plan eg s)
    seat_one-IsInvariant v eg s h = elim (seat_one_effect v eg s h.counted) [
      | inl skipped ↦
          rw skipped
            (record { same_tables = h.same_tables; seated = h.seated; counted = h.counted })
      | inr (t, (known, counted), unlocked, room, seated) ↦ rw seated (
          seat_at-IsInvariant v eg s t known unlocked
            (ground (arith, counted unlocked, known.1 unlocked, room)) h)
    ]

    seat_all-IsInvariant :
        (v : Env) (egs : List EventGuest) (s : Progress)
        → IsInvariant tables plan s
        → IsInvariant tables plan (seat_all v plan egs s)
    unfolding seat_all
    seat_all-IsInvariant v [] s h = h
    seat_all-IsInvariant v (eg ∷ egs) s h =
        seat_all-IsInvariant (from (suc (length plan.tables)) v) egs (seat_one v plan eg s)
          (seat_one-IsInvariant v eg s h)

-- The rows that the call lists make a plan, and the maps that it fills start the invariant.
start-IsInvariant :
    (tenant event by : ℕ) (db : Db)
    → IsSeated db
    → let tables = tables_of tenant event db in
      let plan = plan_of tenant by tables (seats_of tenant event db) in
      All (IsPlanned db.tables plan.caps) tables × IsInvariant db.tables plan (start tables db)
unfolding tables_of
start-IsInvariant tenant event by db h =
    let p = λ (t : Table). t.tenant_id == tenant && (t.event_id == event && is_null t.deleted_at) in
    let tables = tables_of tenant event db in
    let keyed = listed-IsKeyed p db.seats db.tables h.keyed in
    let rows = listed-IsListed p db.seats db.tables h.keyed in
    (
      All-zip (IsListed p db.seats db.tables)
          (λ t.
            t.table.is_locked ≡ false
            → capacities (λ _. pos 0) tables t.table.id ≡ t.table.capacity)
          (IsPlanned db.tables (capacities (λ _. pos 0) tables)) tables (λ t row cap. (row.0, cap))
          rows (capacities-entry (λ _. pos 0) tables keyed),
      record {
        same_tables = refl;
        seated = h;
        counted =
            All-zip (IsListed p db.seats db.tables)
              (λ t.
                t.table.is_locked ≡ false
                → occupancies (λ _. pos 0) tables t.table.id ≡ pos t.occupancy)
              (IsCounted db (occupancies (λ _. pos 0) tables)) tables
              (λ t row occ unlocked. ground (arith, row.1, occ unlocked)) rows
              (occupancies-entry (λ _. pos 0) tables keyed);
      },
    )

-- The call changes nothing, or it runs the loops.
auto_assign_effect :
    (v : Env) (tenant event by : ℕ) (db : Db)
    → ((auto_assign v tenant event by db).1 ≡ db)
      ⊎ ((auto_assign v tenant event by db).1
          ≡ (seat_all
              (from 3 v)
              (plan_of tenant by (tables_of tenant event db) (seats_of tenant event db))
              (roster tenant event db)
              (start (tables_of tenant event db) db)).db)
unfolding auto_assign
auto_assign_effect v tenant event by db = ground arith

pub auto_assign-IsSeated :
    (v : Env) (tenant event by : ℕ) (db : Db)
    → IsSeated db
    → IsSeated (auto_assign v tenant event by db).1
auto_assign-IsSeated v tenant event by db h = elim (auto_assign_effect v tenant event by db) [
  | inl same ↦ subst IsSeated (sym same) h
  | inr ran ↦
      let tables = tables_of tenant event db in
      let plan = plan_of tenant by tables (seats_of tenant event db) in
      let (planned, started) = start-IsInvariant tenant event by db h in
      let ended =
        seat_all-IsInvariant db.tables plan planned (from 3 v) (roster tenant event db)
          (start tables db) started in
      subst IsSeated (sym ran) ended.seated
]
