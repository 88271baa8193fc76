-- ===== src/Seating/Service.antt =====
-- internal/service/seating_service.go: tables, and the seats that are given by hand.
use guestbook.Prelude.{
  ℕ, ◌==◌, ℤ, pos, ltb_ℤ, String, str_eq, is_empty, opt_text, opt_text_or, value_or, pointer_or,
  trim_space, Bool, false, not, ◌&&◌, ◌||◌, Option, none, some, if◌then◌else◌,
}
use guestbook.Action.{
  forbidden, invalid_input, Action, Env, pure, gets, ignore, raise_if, statement, ◌>>=◌, ◌>>◌,
}
use guestbook.Store.{
  Table, SeatAssignment, Guest, Db, find_event_guest, get_guest, select_one, log_with_user,
}
use guestbook.Seating.Repo.{
  occupancy_of, insert_table, get_table, update_table_row, soft_delete_table, assign_seat,
  delete_seat, find_seat,
}

-- `isValidTableShape`
unfoldable pub is_valid_table_shape : String → Bool
is_valid_table_shape shape =
    str_eq shape "round"
    || (str_eq shape "rectangular"
        || (str_eq shape "square" || (str_eq shape "oval" || str_eq shape "u_shape")))

pub record TableCreateRequest : Type 0 where
  pub zone_id : Option ℕ
  pub name : String
  pub capacity : ℤ
  pub shape : String
  pub position_x : Option ℤ
  pub position_y : Option ℤ
  pub is_locked : Bool
  pub accessibility : Bool
  pub vip_only : Bool
  pub notes : String

pub record TableUpdateRequest : Type 0 where
  pub zone_id : Option ℕ
  pub name : String
  pub capacity : Option ℤ
  pub shape : String
  pub position_x : Option ℤ
  pub position_y : Option ℤ
  pub is_locked : Option Bool
  pub accessibility : Option Bool
  pub vip_only : Option Bool
  pub notes : String

-- Both coordinates are given and one of them is below 0.
abbrev pub is_bad_position : Option ℤ → Option ℤ → Bool
is_bad_position (some x) (some y) = ltb_ℤ x (pos 0) || ltb_ℤ y (pos 0)
is_bad_position _ _ = false

-- The row that `CreateTable` inserts.
abbrev pub new_table : Env → ℕ → ℕ → TableCreateRequest → String → String → Table
new_table v tenant event req name shape = record {
  id = v.fresh 0;
  created_at = v.now 0;
  updated_at = v.now 1;
  deleted_at = none;
  tenant_id = tenant;
  event_id = event;
  zone_id = req.zone_id;
  name = name;
  capacity = req.capacity;
  shape = shape;
  position_x = req.position_x;
  position_y = req.position_y;
  is_locked = req.is_locked;
  accessibility = req.accessibility;
  vip_only = req.vip_only;
  notes = opt_text req.notes;
}

-- `CreateTable`
unfoldable pub create_table : Env → ℕ → ℕ → TableCreateRequest → Action Db Table
unfolding insert_table
create_table v tenant event req = do
  let name = trim_space req.name
  let shape = if is_empty req.shape then "round" else req.shape
  raise_if (is_empty name) invalid_input
  raise_if (ltb_ℤ req.capacity (pos 1)) invalid_input
  raise_if (ltb_ℤ (pos 999) req.capacity) invalid_input
  raise_if (not (is_valid_table_shape shape)) invalid_input
  raise_if (is_bad_position req.position_x req.position_y) invalid_input
  let table = new_table v tenant event req name shape
  insert_table (v.down 0) table
  pure table

-- The checks that `UpdateTable` makes of a new capacity.
abbrev pub check_capacity : Env → ℕ → Option ℤ → Action Db (Unit {0})
check_capacity v id none = pure tt
check_capacity v id (some capacity) = do
  raise_if (ltb_ℤ capacity (pos 1)) invalid_input
  raise_if (ltb_ℤ (pos 999) capacity) invalid_input
  occupancy ← statement (v.down 1) (gets (λ db. occupancy_of id db.seats))
  raise_if (ltb_ℤ capacity (pos occupancy)) invalid_input

-- The fields that `UpdateTable` writes to the row that it has read.
abbrev pub apply_update : ℕ → TableUpdateRequest → Table → Table
apply_update now req t = record t {
  name = if is_empty req.name then t.name else trim_space req.name;
  capacity = value_or req.capacity t.capacity;
  shape = if is_empty req.shape then t.shape else req.shape;
  position_x = pointer_or req.position_x t.position_x;
  position_y = pointer_or req.position_y t.position_y;
  is_locked = value_or req.is_locked t.is_locked;
  accessibility = value_or req.accessibility t.accessibility;
  vip_only = value_or req.vip_only t.vip_only;
  notes = opt_text_or req.notes t.notes;
  zone_id = pointer_or req.zone_id t.zone_id;
  updated_at = now;
}

-- `UpdateTable`
unfoldable pub update_table : Env → ℕ → ℕ → ℕ → TableUpdateRequest → Action Db Table
unfolding update_table_row
update_table v tenant event id req = do
  existing ← get_table (v.down 0) tenant event id
  check_capacity v id req.capacity
  raise_if (not (is_empty req.shape) && not (is_valid_table_shape req.shape)) invalid_input
  raise_if (is_bad_position req.position_x req.position_y) invalid_input
  let updated = apply_update (v.now 0) req existing
  update_table_row (v.down 2) updated
  pure updated

-- `DeleteTable`
unfoldable pub delete_table : Env → ℕ → ℕ → ℕ → ℕ → Action Db (Unit {0})
unfolding log_with_user
delete_table v tenant event id deleted_by = do
  soft_delete_table v tenant event id
  ignore (log_with_user (v.down 4) deleted_by tenant "delete" "table" id)

pub record AssignGuestRequest : Type 0 where
  pub guest_id : ℕ
  pub seat_number : Option ℤ

-- `guest.GuestType != GuestTypeVIP && guest.GuestType != GuestTypeVVIP`, negated
unfoldable pub is_vip : Guest → Bool
is_vip g = str_eq g.guest_type "vip" || str_eq g.guest_type "vvip"

-- The guest's present seat is at this table.
abbrev pub is_at_table : ℕ → Option SeatAssignment → Bool
is_at_table table none = false
is_at_table table (some s) = s.table_id == table

-- A roster entry that cannot be read, for whatever reason, is `ErrInvalidInput`.
abbrev pub require_roster : Bool → ℕ → ℕ → ℕ → Action Db ℕ
require_roster down tenant event guest =
    select_one false
      (λ db.
        if down
        then none
        else elim (find_event_guest tenant event guest db) [ none ↦ none | some eg ↦ some eg.id ])
      invalid_input

-- `AssignGuest`
unfoldable pub assign_guest : Env → ℕ → ℕ → ℕ → AssignGuestRequest → ℕ → Action Db (Unit {0})
assign_guest v tenant event id req assigned_by = do
  table ← get_table (v.down 0) tenant event id
  raise_if table.is_locked forbidden
  guest ← get_guest (v.down 1) tenant req.guest_id
  event_guest_id ← require_roster (v.down 2) tenant event req.guest_id
  raise_if (table.vip_only && not (is_vip guest)) forbidden
  occupancy ← statement (v.down 3) (gets (λ db. occupancy_of id db.seats))
  existing ← statement (v.down 4) (gets (find_seat tenant event req.guest_id))
  raise_if (not (is_at_table id existing) && not (ltb_ℤ (pos occupancy) table.capacity))
      invalid_input
  assign_seat (v.down 5) (record {
    table_id = id;
    guest_id = req.guest_id;
    event_guest_id = some event_guest_id;
    seat_number = req.seat_number;
    assigned_by = assigned_by;
    assigned_at = v.now 0;
  })

-- `UnassignGuest`
unfoldable pub unassign_guest : Env → ℕ → ℕ → ℕ → ℕ → Action Db (Unit {0})
unfolding delete_seat
unassign_guest v tenant event id guest = do
  get_table (v.down 0) tenant event id
  delete_seat (v.down 1) id guest
