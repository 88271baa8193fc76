-- ===== src/Checkin/Admission.antt =====
-- `performCheckin` and `recordFailedCheckin` of internal/service/checkin_service.go. A failed attempt is recorded, and the record is returned
-- with the error; callers look at the error, which is all that the model returns.
--
-- The places where `performCheckin` sends a statement are 0 the event, 1 the roster, 2 the count
-- of earlier check-ins, 3 the insert, 4 the audit log. A caller's statements come before.
use guestbook.Prelude.{
  ℕ, ℤ, pos, ltb_ℤ, ◌==ℤ◌, ◌+ℤ◌, wrap_int, opt_text, Bool, true, false, Option, none, some,
  if◌then◌else◌,
}
use guestbook.Action.{
  Error, already_exists, invalid_input, Action, Env, pure, raise, gets, ignore, statement, ◌>>=◌,
  ◌>>◌,
}
use guestbook.Store.{
  CheckinStatus, EventGuest, Checkin, Db, select_one, get_event, find_event_guest, log_with_user,
}
use guestbook.Checkin.Repo.{CheckinRequest, insert_checkin, is_checked_in}

-- `if officerID != nil { actor = *officerID }`, where the actor was `uuid.Nil`.
abbrev pub actor_of : Option ℕ → ℕ
actor_of none = 0
actor_of (some officer) = officer

abbrev pub opt_coordinate : ℤ → Option ℤ
opt_coordinate x = if x ==ℤ pos 0 then none else some x

-- The error that goes with a failed status.
unfoldable pub failure_of : CheckinStatus → Error
failure_of CheckinStatus.duplicate = already_exists
failure_of _ = invalid_input

-- The record of a failed attempt.
unfoldable pub failed_checkin : Env → ℕ → ℕ → Option ℕ → CheckinRequest → CheckinStatus → Checkin
failed_checkin v tenant event officer req status = record {
  id = v.fresh 0;
  created_at = v.now 0;
  updated_at = v.now 0;
  deleted_at = none;
  tenant_id = tenant;
  event_id = event;
  session_id = none;
  guest_id = actor_of req.guest_id;
  event_guest_id = none;
  invitation_id = none;
  credential_id = none;
  method = req.method;
  status = status;
  device_id = opt_text req.device_id;
  gate_id = req.gate_id;
  officer_id = officer;
  actual_pax = pos 0;
  adults = pos 0;
  children = pos 0;
  override_reason = none;
  approved_by = none;
  ip_address = none;
  latitude = none;
  longitude = none;
  notes = none;
  offline_synced = false;
}

-- `recordFailedCheckin`; the flag is its insert's.
unfoldable pub record_failed :
    Bool → Env → ℕ → ℕ → Option ℕ → CheckinRequest → CheckinStatus → Action Db Checkin
unfolding failed_checkin insert_checkin failure_of
record_failed down v tenant event officer req status = do
  ignore (insert_checkin down (failed_checkin v tenant event officer req status))
  raise (failure_of status)

-- `actualPax < 1` becomes 1.
abbrev pub checked_pax : ℤ → ℤ
checked_pax n = if ltb_ℤ n (pos 1) then pos 1 else n

-- The adults before they are balanced.
abbrev pub default_adults : CheckinRequest → ℤ
default_adults req = if ltb_ℤ req.adults (pos 1) then checked_pax req.actual_pax else req.adults

-- `adults+children != actualPax`, negated.
abbrev pub is_balanced : CheckinRequest → Bool
is_balanced req = wrap_int (default_adults req +ℤ req.children) ==ℤ checked_pax req.actual_pax

abbrev pub balanced_adults : CheckinRequest → ℤ
balanced_adults req = if is_balanced req then default_adults req else checked_pax req.actual_pax

abbrev pub balanced_children : CheckinRequest → ℤ
balanced_children req = if is_balanced req then req.children else pos 0

-- The record of a check-in.
unfoldable pub new_checkin : Env → ℕ → ℕ → ℕ → ℕ → Option ℕ → Option ℕ → CheckinRequest → Checkin
new_checkin v tenant event guest event_guest invitation officer req = record {
  id = v.fresh 0;
  created_at = v.now 0;
  updated_at = v.now 0;
  deleted_at = none;
  tenant_id = tenant;
  event_id = event;
  session_id = none;
  guest_id = guest;
  event_guest_id = some event_guest;
  invitation_id = invitation;
  credential_id = none;
  method = req.method;
  status = CheckinStatus.success;
  device_id = opt_text req.device_id;
  gate_id = req.gate_id;
  officer_id = officer;
  actual_pax = checked_pax req.actual_pax;
  adults = balanced_adults req;
  children = balanced_children req;
  override_reason = opt_text req.override_reason;
  approved_by = req.approved_by;
  ip_address = none;
  latitude = opt_coordinate req.latitude;
  longitude = opt_coordinate req.longitude;
  notes = opt_text req.notes;
  offline_synced = false;
}

-- A roster entry that cannot be read, for whatever reason, is `ErrInvalidInput`.
abbrev pub require_entry : Bool → ℕ → ℕ → ℕ → Action Db EventGuest
require_entry down tenant event guest =
    select_one false (λ db. if down then none else find_event_guest tenant event guest db)
      invalid_input

-- The end of `performCheckin`, for a guest who is not yet checked in.
unfoldable pub admit :
    Env → ℕ → ℕ → ℕ → ℕ → Option ℕ → Option ℕ → CheckinRequest → Action Db Checkin
unfolding insert_checkin new_checkin log_with_user
admit v tenant event guest event_guest invitation officer req = do
  let c = new_checkin v tenant event guest event_guest invitation officer req
  insert_checkin (v.down 3) c
  ignore (log_with_user (v.down 4) (actor_of officer) tenant "create" "checkin" c.id)
  pure c

-- `performCheckin` after the count.
abbrev pub admit_or_refuse :
    Env → ℕ → ℕ → ℕ → ℕ → Option ℕ → Option ℕ → CheckinRequest → Bool → Action Db Checkin
admit_or_refuse v tenant event guest event_guest invitation officer req true =
    record_failed (v.down 3) v tenant event officer req CheckinStatus.duplicate
admit_or_refuse v tenant event guest event_guest invitation officer req false =
    admit v tenant event guest event_guest invitation officer req

-- `performCheckin`
unfoldable pub perform_checkin :
    Env → ℕ → ℕ → ℕ → Option ℕ → Option ℕ → CheckinRequest → Action Db Checkin
unfolding record_failed admit
perform_checkin v tenant event guest invitation officer req = do
  get_event (v.down 0) event tenant
  entry ← require_entry (v.down 1) tenant event guest
  present ← statement (v.down 2) (gets (is_checked_in tenant event guest))
  admit_or_refuse v tenant event guest entry.id invitation officer req present
