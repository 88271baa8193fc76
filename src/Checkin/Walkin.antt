-- ===== src/Checkin/Walkin.antt =====
-- `ProcessWalkin` of internal/service/checkin_service.go: places 0 the guest's insert, 1 the
-- roster's, then those of `performCheckin`; identifiers 0 the guest's, 1 the entry's.
use guestbook.Prelude.{
  ℕ, pos, ◌==ℤ◌, String, is_empty, trim_space, false, ◌&&◌, Option, none, if◌then◌else◌,
}
use guestbook.Action.{invalid_input, Action, Env, from, raise_if, ◌>>◌}
use guestbook.Store.{CheckinMethod, EventGuestStatus, EventGuest, Checkin, Db}
use guestbook.Checkin.Repo.{
  CheckinRequest, WalkinRequest, GuestCreateRequest, new_guest, insert_guest, insert_event_guest,
}
use guestbook.Checkin.Admission.{actor_of, perform_checkin}

abbrev pub walkin_guest : WalkinRequest → String → GuestCreateRequest
walkin_guest req name = record {
  full_name = name;
  nickname = "";
  phone = req.phone;
  email = req.email;
  address = "";
  city = "";
  country = "";
  language = "";
  guest_type = req.guest_type;
  segment = req.segment;
  institution = "";
  title = "";
  relationship = "";
  pic = "";
  accessibility_needs = "";
  dietary_restrictions = "";
  allergies = "";
  notes = "";
  consent_communication = false;
}

abbrev pub walkin_entry : Env → ℕ → ℕ → ℕ → WalkinRequest → EventGuest
walkin_entry v tenant event created_by req = record {
  id = v.fresh 1;
  created_at = v.now 1;
  updated_at = v.now 1;
  deleted_at = none;
  tenant_id = tenant;
  event_id = event;
  guest_id = v.fresh 0;
  status = EventGuestStatus.active;
  source = "walk_in";
  max_pax = req.actual_pax;
  adults = if req.adults ==ℤ pos 0 && req.children ==ℤ pos 0 then req.actual_pax else req.adults;
  children = req.children;
  plus_one_allowed = false;
  notes = none;
  created_by = created_by;
}

abbrev pub walkin_checkin : WalkinRequest → CheckinRequest
walkin_checkin req = record {
  method = CheckinMethod.walk_in;
  token = "";
  guest_id = none;
  gate_id = none;
  device_id = "";
  actual_pax = req.actual_pax;
  adults = req.adults;
  children = req.children;
  override_reason = req.override_reason;
  approved_by = req.approved_by;
  notes = req.notes;
  latitude = pos 0;
  longitude = pos 0;
}

-- `ProcessWalkin`
unfoldable pub process_walkin : Env → ℕ → ℕ → Option ℕ → WalkinRequest → Action Db Checkin
unfolding new_guest insert_guest insert_event_guest perform_checkin
process_walkin v tenant event officer req = do
  let name = trim_space req.full_name
  raise_if (is_empty name) invalid_input
  raise_if (is_empty req.guest_type) invalid_input
  insert_guest (v.down 0)
      (new_guest (v.fresh 0) (v.now 0) tenant (actor_of officer) (walkin_guest req name))
  insert_event_guest (v.down 1) (walkin_entry v tenant event (actor_of officer) req)
  perform_checkin (from 2 v) tenant event (v.fresh 0) none officer (walkin_checkin req)
