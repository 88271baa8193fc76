-- ===== src/Seating/Repo.antt =====
-- internal/repository/seating_repository.go. A SELECT is a function of the store; a statement
-- that fails is the driver's error and changes nothing.
use guestbook.Prelude.{
  ℕ, ◌==◌, pos, ◌==ℤ◌, Bool, not, ◌&&◌, Option, some, List, ◌∷◌, map, if◌then◌else◌, find_first,
  select, count_if, any, update_if, take, pointer_or, text_or,
}
use guestbook.Action.{not_found, ok, err, Action, Env, statement, modify, ◌>>◌}
use guestbook.Store.{
  Table, SeatAssignment, EventGuest, Db, is_null, is_active, has_guest, select_one,
}

-- `RunInTransaction` of internal/repository/db.go: what the body wrote is undone on an error. The
-- first flag is the BEGIN, the second the COMMIT.
abbrev pub transaction : {A : Type 0} → Bool → Bool → Action Db A → Action Db A
transaction begin commit body = statement begin (λ db.
    let (r, db') = body db in
    elim r [ ok a ↦ statement commit (λ s. (ok a, db')) db | err e ↦ (err e, db) ])

-- `TableWithOccupancy`, without the guests that `GetTable` loads for display.
pub record TableWithOccupancy : Type 0 where
  pub table : Table
  pub occupancy : ℕ

-- `SELECT COUNT(*) FROM seat_assignments WHERE table_id = ...`
unfoldable pub occupancy_of : ℕ → List SeatAssignment → ℕ
occupancy_of table seats = count_if (λ s. s.table_id == table) seats

-- `CreateTable`
unfoldable pub insert_table : Bool → Table → Action Db (Unit {0})
insert_table down table = statement down (modify (λ db. record db { tables = table ∷ db.tables }))

abbrev pub is_table_of : ℕ → ℕ → ℕ → Table → Bool
is_table_of tenant event id t =
    t.id == id && (t.tenant_id == tenant && (t.event_id == event && is_null t.deleted_at))

unfoldable pub find_table : ℕ → ℕ → ℕ → Db → Option Table
find_table tenant event id db = find_first (is_table_of tenant event id) db.tables

-- `GetTable`
abbrev pub get_table : Bool → ℕ → ℕ → ℕ → Action Db Table
get_table down tenant event id = select_one down (find_table tenant event id) not_found

-- The SET list of `UpdateTable`: COALESCE keeps the old value where the new one is NULL, and
-- NULLIF makes NULL of an empty text and of 0.
unfoldable pub merge_table : Table → Table → Table
merge_table new old = record old {
  zone_id = pointer_or new.zone_id old.zone_id;
  name = text_or new.name old.name;
  capacity = if new.capacity ==ℤ pos 0 then old.capacity else new.capacity;
  shape = text_or new.shape old.shape;
  position_x = pointer_or new.position_x old.position_x;
  position_y = pointer_or new.position_y old.position_y;
  is_locked = new.is_locked;
  accessibility = new.accessibility;
  vip_only = new.vip_only;
  notes = pointer_or new.notes old.notes;
  updated_at = new.updated_at;
}

abbrev pub is_live_table : ℕ → ℕ → Table → Bool
is_live_table id tenant t = t.id == id && (t.tenant_id == tenant && is_null t.deleted_at)

-- `UpdateTable`
unfoldable pub update_table_row : Bool → Table → Action Db (Unit {0})
update_table_row down new = statement down (λ db.
    if any (is_live_table new.id new.tenant_id) db.tables
    then (
      ok tt,
      record db {
        tables = update_if (is_live_table new.id new.tenant_id) (merge_table new) db.tables;
      },
    )
    else (err not_found, db))

-- `SoftDeleteTable`: the seats go first, then the row is marked; no row undoes the deletion.
unfoldable pub soft_delete_table : Env → ℕ → ℕ → ℕ → Action Db (Unit {0})
soft_delete_table v tenant event id = transaction (v.down 0) (v.down 3) (do
  statement (v.down 1)
      (modify (λ db. record db { seats = select (λ s. not (s.table_id == id)) db.seats }))
  statement (v.down 2) (λ db.
      if any (is_table_of tenant event id) db.tables
      then (
        ok tt,
        record db {
          tables =
              update_if (is_table_of tenant event id)
                (λ t. record t { deleted_at = some (v.now 0); updated_at = v.now 0 }) db.tables;
        },
      )
      else (err not_found, db)))

-- `ListTablesByEvent`
unfoldable pub tables_of : ℕ → ℕ → Db → List TableWithOccupancy
tables_of tenant event db =
    map (λ t. record { table = t; occupancy = occupancy_of t.id db.seats })
      (select (λ t. t.tenant_id == tenant && (t.event_id == event && is_null t.deleted_at))
        db.tables)

abbrev pub is_seat : ℕ → ℕ → SeatAssignment → Bool
is_seat table guest s = s.table_id == table && s.guest_id == guest

-- `AssignGuest`: INSERT, or an UPDATE of the other columns where the key (table, guest) exists.
unfoldable pub upsert_seat : SeatAssignment → List SeatAssignment → List SeatAssignment
upsert_seat new seats =
    if any (is_seat new.table_id new.guest_id) seats
    then update_if (is_seat new.table_id new.guest_id)
        (λ s. record s {
          event_guest_id = new.event_guest_id;
          seat_number = new.seat_number;
          assigned_by = new.assigned_by;
          assigned_at = new.assigned_at;
        })
        seats
    else new ∷ seats

abbrev pub assign_seat : Bool → SeatAssignment → Action Db (Unit {0})
assign_seat down new =
    statement down (modify (λ db. record db { seats = upsert_seat new db.seats }))

-- `UnassignGuest`
unfoldable pub delete_seat : Bool → ℕ → ℕ → Action Db (Unit {0})
delete_seat down table guest = statement down (λ db.
    if any (is_seat table guest) db.seats
    then (ok tt, record db { seats = select (λ s. not (is_seat table guest s)) db.seats })
    else (err not_found, db))

-- The join of `GetGuestAssignment` and `ListAssignmentsByEvent`: the seat's table is a live one of
-- the event.
unfoldable pub is_seat_in_event : ℕ → ℕ → Db → SeatAssignment → Bool
is_seat_in_event tenant event db s = any (is_table_of tenant event s.table_id) db.tables

-- `GetGuestAssignment`
unfoldable pub find_seat : ℕ → ℕ → ℕ → Db → Option SeatAssignment
find_seat tenant event guest db =
    find_first (λ s. s.guest_id == guest && is_seat_in_event tenant event db s) db.seats

-- `ListAssignmentsByEvent`
unfoldable pub seats_of : ℕ → ℕ → Db → List SeatAssignment
seats_of tenant event db = select (is_seat_in_event tenant event db) db.seats

-- `EventGuestRepository.List` with Status 'active', Page 1 and PerPage 100, and no search.
unfoldable pub roster : ℕ → ℕ → Db → List EventGuest
roster tenant event db = take 100 (
    select
      (λ eg.
        eg.tenant_id == tenant
        && (eg.event_id == event
            && (is_null eg.deleted_at && (is_active eg.status && has_guest db eg))))
      db.event_guests)

-- `CountUnassignedGuests`
unfoldable pub count_unassigned : ℕ → ℕ → Db → ℕ
count_unassigned tenant event db =
    count_if
      (λ eg.
        eg.tenant_id == tenant
        && (eg.event_id == event
            && (is_active eg.status
                && (is_null eg.deleted_at
                    && not (
                        any (λ s. s.guest_id == eg.guest_id && is_seat_in_event tenant event db s)
                          db.seats)))))
      db.event_guests
