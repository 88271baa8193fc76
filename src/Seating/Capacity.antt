-- ===== src/Seating/Capacity.antt =====
-- No table is given more guests than it has seats: `AssignGuest`, `UnassignGuest`, `CreateTable`,
-- `UpdateTable` and `DeleteTable` of internal/service/seating_service.go.
use guestbook.Prelude.{
  ℕ, suc, ◌==◌, pos, ◌≤ℤ◌, ◌<ℤ◌, ◌≡◌, refl, sym, ap, subst, ◌⊎◌, inl, inr, Bool, true, false, ◌&&◌,
  none, some, List, [], ◌∷◌, arith, if◌then◌else◌, find_first, any, count_if, All, All-none,
  All-zip, All-imp, find_first-passes, any_of_find_first, count_if-update_if, Bool-cases,
  Option-cases,
}
use guestbook.Action.{Env}
use guestbook.Store.{Table, SeatAssignment, Db, is_null, find_event_guest}
use guestbook.Seating.Repo.{
  occupancy_of, is_table_of, find_table, is_seat, upsert_seat, find_seat, is_seat_in_event,
}
use guestbook.Seating.Service.{AssignGuestRequest, assign_guest, is_at_table}

-- A live table has at most as many guests as seats.
abbrev pub Fits : List SeatAssignment → Table → Type 0
Fits seats t = is_null t.deleted_at ≡ true → pos (occupancy_of t.id seats) ≤ℤ t.capacity

-- The primary key: no two rows have one id.
abbrev pub IsKeyed : List Table → Type 0
IsKeyed [] = Unit
IsKeyed (t ∷ ts) = (any (λ x. x.id == t.id) ts ≡ false) × IsKeyed ts

pub record IsSeated (db : Db) : Type 0 where
  pub fits : All (Fits db.seats) db.tables
  pub keyed : IsKeyed db.tables

-- How many guests a table has after an insertion or an update of one seat.
pub occupancy_of-upsert_seat :
    (id : ℕ) (new : SeatAssignment) (seats : List SeatAssignment)
    → occupancy_of id (upsert_seat new seats) ≡ (
        if new.table_id == id
        then if any (is_seat new.table_id new.guest_id) seats
          then occupancy_of id seats
          else suc (occupancy_of id seats)
        else occupancy_of id seats)
unfolding occupancy_of upsert_seat count_if
occupancy_of-upsert_seat id new seats = ground (
  arith,
  count_if-update_if (λ (s : SeatAssignment). s.table_id == id) (is_seat new.table_id new.guest_id)
      (λ s. record s {
        event_guest_id = new.event_guest_id;
        seat_number = new.seat_number;
        assigned_by = new.assigned_by;
        assigned_at = new.assigned_at;
      })
      seats (λ s. refl),
)

-- The seat that `AssignGuest` writes.
abbrev pub seat_for : Env → ℕ → ℕ → ℕ → AssignGuestRequest → ℕ → Db → SeatAssignment
seat_for v tenant event id req assigned_by db = record {
  table_id = id;
  guest_id = req.guest_id;
  event_guest_id = elim (find_event_guest tenant event req.guest_id db) [
    | none ↦ none
    | some eg ↦ some eg.id
  ];
  seat_number = req.seat_number;
  assigned_by = assigned_by;
  assigned_at = v.now 0;
}

module _ (v : Env) (tenant event id : ℕ) (req : AssignGuestRequest) (by : ℕ) (db : Db) where
  -- The seat that `GetGuestAssignment` finds at this table is a row under this key.
  seat_present :
      is_at_table id (find_seat tenant event req.guest_id db) ≡ true
      → any (is_seat id req.guest_id) db.seats ≡ true
  unfolding find_seat
  seat_present h = elim (Option-cases (find_seat tenant event req.guest_id db)) [
    | inl none_there ↦ ground (arith, none_there)
    | inr (s, e) ↦
        let p = λ (x : SeatAssignment).
          x.guest_id == req.guest_id && is_seat_in_event tenant event db x in
        let passes : p s ≡ true = find_first-passes p db.seats s e in
        any_of_find_first p (is_seat id req.guest_id) db.seats s e (ground (arith, passes, e))
  ]

  module _ (t : Table) (found : find_table tenant event id db ≡ some t) where
    -- The call writes nothing, or one seat at an unlocked table that has room or already has the
    -- guest.
    pub assign_guest_effect :
        ((assign_guest v tenant event id req by db).1 ≡ db)
        ⊎ ((t.is_locked ≡ false)
            × ((any (is_seat id req.guest_id) db.seats ≡ true)
                ⊎ (pos (occupancy_of id db.seats) <ℤ t.capacity))
            × ((assign_guest v tenant event id req by db).1 ≡ record db {
              seats = upsert_seat (seat_for v tenant event id req by db) db.seats;
            }))
    unfolding assign_guest
    assign_guest_effect =
        elim (Bool-cases (is_at_table id (find_seat tenant event req.guest_id db))) [
          | inl here ↦ ground (arith, found, here, seat_present here)
          | inr elsewhere ↦ ground (arith, found, elsewhere)
        ]

  -- No such table, no effect.
  pub assign_guest_missing :
      find_table tenant event id db ≡ none → (assign_guest v tenant event id req by db).1 ≡ db
  unfolding assign_guest
  assign_guest_missing missing = ground (arith, missing)

-- The row that a search by id finds is the only row with this id.
pub only_row :
    (p : Table → Bool) (id : ℕ) (ts : List Table) (t : Table)
    → ((x : Table) → p x ≡ true → x.id ≡ id)
    → IsKeyed ts
    → find_first p ts ≡ some t
    → All (λ x. x.id ≡ id → x ≡ t) ts
unfolding find_first
only_row p id [] t keys h e = cc
only_row p id (y ∷ ys) t keys h e = elim (Bool-cases (p y)) [
  | inl pass ↦
      let here : y ≡ t = ground (arith, pass) in
      (
        λ _. here,
        All-imp (λ x. (x.id == y.id) ≡ false) (λ x. x.id ≡ id → x ≡ t) ys
            (λ x ne same. absurd (ground (arith, ne, keys y pass)))
            (All-none (λ x. x.id == y.id) ys h.0),
      )
  | inr fail ↦
      let found : find_first p ys ≡ some t = ground (arith, fail) in
      let t_id : t.id ≡ id = keys t (find_first-passes p ys t found) in
      (
        λ same.
            let there : any (λ x. x.id == y.id) ys ≡ true =
              any_of_find_first p (λ x. x.id == y.id) ys t found (ground (arith, same, t_id)) in
            cc (h.0, there),
        only_row p id ys t keys h.1 found,
      )
]

-- One more seat at a table with room, or a seat that is already there, keeps every table within
-- its capacity.
pub upsert_seat-IsSeated :
    (p : Table → Bool) (db : Db) (t : Table) (new : SeatAssignment)
    → ((x : Table) → p x ≡ true → x.id ≡ new.table_id)
    → find_first p db.tables ≡ some t
    → (any (is_seat new.table_id new.guest_id) db.seats ≡ true)
      ⊎ (pos (occupancy_of new.table_id db.seats) <ℤ t.capacity)
    → IsSeated db
    → IsSeated (record db { seats = upsert_seat new db.seats })
upsert_seat-IsSeated p db t new keys found room h = record {
  fits =
      All-zip (Fits db.seats) (λ x. x.id ≡ new.table_id → x ≡ t) (Fits (upsert_seat new db.seats))
        db.tables
        (λ x fit same live. elim (Bool-cases (new.table_id == x.id)) [
          | inl here ↦
              let x_is : x ≡ t = same (ground (arith, here)) in
              ground (
                arith,
                here,
                fit live,
                room,
                ap (λ (y : Table). y.capacity) x_is,
                ap (λ (y : Table). y.id) x_is,
                occupancy_of-upsert_seat x.id new db.seats,
              )
          | inr there ↦ ground (arith, there, fit live, occupancy_of-upsert_seat x.id new db.seats)
        ])
        h.fits (only_row p new.table_id db.tables t keys h.keyed found);
  keyed = h.keyed;
}

pub assign_guest-IsSeated :
    (v : Env) (tenant event id : ℕ) (req : AssignGuestRequest) (by : ℕ) (db : Db)
    → IsSeated db
    → IsSeated (assign_guest v tenant event id req by db).1
unfolding find_table
assign_guest-IsSeated v tenant event id req by db h =
    elim (Option-cases (find_table tenant event id db)) [
      | inl missing ↦
          subst IsSeated (sym (assign_guest_missing v tenant event id req by db missing)) h
      | inr (t, found) ↦ elim (assign_guest_effect v tenant event id req by db t found) [
        | inl same ↦ subst IsSeated (sym same) h
        | inr (unlocked, room, written) ↦ subst IsSeated (sym written) (
            upsert_seat-IsSeated (is_table_of tenant event id) db t
              (seat_for v tenant event id req by db) (λ x q. ground arith) found room h)
      ]
    ]
