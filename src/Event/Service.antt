-- ===== src/Event/Service.antt =====
-- internal/service/event_service.go: what creates and changes events. The audit log's JSON
-- documents are left out, as elsewhere.
use guestbook.Prelude.{
  ℕ, ℤ, ltb, ◌==◌, String, str_eq, is_empty, opt_text, text_or, opt_text_or, value_or, pointer_or,
  Bool, true, false, not, ◌&&◌, Option, none, some, List, [], ◌∷◌, any,
}
use guestbook.Action.{
  invalid_input, event_cannot_modify, event_cannot_delete, event_invalid_status_transition, Action,
  Env, pure, ignore, raise_if, ◌>>=◌, ◌>>◌,
}
use guestbook.Store.{
  EventStatus, is_valid_event_status, is_blank_event_status, Event, Db, get_event, log_with_user,
}
use guestbook.Event.Repo.{
  insert_event, status_or, update_event, soft_delete_event, update_event_status,
}

pub record EventCreateRequest : Type 0 where
  pub name : String
  pub type : String
  pub description : String
  pub start_date : ℕ
  pub end_date : Option ℕ
  pub rsvp_deadline : Option ℕ
  pub capacity : Option ℤ
  pub target_invites : Option ℤ
  pub target_attendance : Option ℤ
  pub dress_code : String
  pub privacy_notice : String
  pub guest_policy : String

pub record EventUpdateRequest : Type 0 where
  pub name : String
  pub type : String
  pub description : String
  pub status : EventStatus
  pub start_date : Option ℕ
  pub end_date : Option ℕ
  pub rsvp_deadline : Option ℕ
  pub capacity : Option ℤ
  pub target_invites : Option ℤ
  pub target_attendance : Option ℤ
  pub dress_code : String
  pub privacy_notice : String
  pub guest_policy : String
  pub settings : Option String

-- `ValidEventTypes`
abbrev pub valid_event_types : List String
valid_event_types =
    "wedding" ∷ "corporate" ∷ "seminar" ∷ "conference" ∷ "gathering" ∷ "government" ∷ "community"
    ∷ "vip" ∷ "family" ∷ []

-- `IsValidEventType`
unfoldable pub is_valid_event_type : String → Bool
is_valid_event_type t = any (λ v. str_eq v t) valid_event_types

-- `end != nil && end.Before(start)`, and `deadline != nil && deadline.After(start)`
abbrev pub ends_early : Option ℕ → ℕ → Bool
ends_early none start = false
ends_early (some t) start = ltb t start

abbrev pub closes_late : Option ℕ → ℕ → Bool
closes_late none start = false
closes_late (some t) start = ltb start t

-- The event that `Create` stores.
unfoldable pub new_event : Env → ℕ → ℕ → EventCreateRequest → Event
new_event v tenant user req = record {
  id = v.fresh 0;
  created_at = v.now 0;
  updated_at = v.now 0;
  deleted_at = none;
  tenant_id = tenant;
  name = req.name;
  type = req.type;
  description = opt_text req.description;
  cover_url = none;
  status = EventStatus.draft;
  start_date = req.start_date;
  end_date = req.end_date;
  rsvp_deadline = req.rsvp_deadline;
  capacity = req.capacity;
  target_invites = req.target_invites;
  target_attendance = req.target_attendance;
  primary_location_id = none;
  dress_code = opt_text req.dress_code;
  privacy_notice = opt_text req.privacy_notice;
  guest_policy = opt_text req.guest_policy;
  settings = some "{}";
  self_checkin_token = "";
  created_by = user;
}

-- `Create`, of the service that `NewEventService` builds, whose `billingSvc` is nil: no quota is
-- checked. `token` is the text that the database draws for the event's self check-in.
unfoldable pub create_event : Env → String → ℕ → ℕ → EventCreateRequest → Action Db Event
unfolding is_valid_event_type new_event insert_event log_with_user
create_event v token tenant user req = do
  raise_if (not (is_valid_event_type req.type)) invalid_input
  raise_if (ends_early req.end_date req.start_date) invalid_input
  raise_if (closes_late req.rsvp_deadline req.start_date) invalid_input
  let event = new_event v tenant user req
  insert_event (v.down 0) token event
  ignore (log_with_user (v.down 1) user tenant "create" "event" event.id)
  pure event

-- `event.Status == Completed || event.Status == Cancelled`
abbrev pub is_over : EventStatus → Bool
is_over EventStatus.completed = true
is_over EventStatus.cancelled = true
is_over _ = false

abbrev pub is_draft : EventStatus → Bool
is_draft EventStatus.draft = true
is_draft _ = false

abbrev pub is_ongoing : EventStatus → Bool
is_ongoing EventStatus.ongoing = true
is_ongoing _ = false

-- The event with the fields of the request that are given, and `Touch`.
unfoldable pub with_changes : ℕ → EventUpdateRequest → Event → Event
with_changes now req e = record e {
  name = text_or req.name e.name;
  type = text_or req.type e.type;
  description = opt_text_or req.description e.description;
  status = status_or req.status e.status;
  start_date = value_or req.start_date e.start_date;
  end_date = pointer_or req.end_date e.end_date;
  rsvp_deadline = pointer_or req.rsvp_deadline e.rsvp_deadline;
  capacity = pointer_or req.capacity e.capacity;
  target_invites = pointer_or req.target_invites e.target_invites;
  target_attendance = pointer_or req.target_attendance e.target_attendance;
  dress_code = opt_text_or req.dress_code e.dress_code;
  privacy_notice = opt_text_or req.privacy_notice e.privacy_notice;
  guest_policy = opt_text_or req.guest_policy e.guest_policy;
  settings = pointer_or req.settings e.settings;
  updated_at = now;
}

-- The tests of `Update`, of the event as it is and with the changes. A text that is blank is no
-- valid type and no valid status, and is not tested.
unfoldable pub check_changes : EventUpdateRequest → Event → Event → Action Db (Unit {0})
unfolding is_valid_event_type
check_changes req event changed = do
  raise_if (is_over event.status) event_cannot_modify
  raise_if (not (is_empty req.type) && not (is_valid_event_type req.type)) invalid_input
  raise_if (not (is_blank_event_status req.status) && not (is_valid_event_status req.status))
      invalid_input
  raise_if (ends_early changed.end_date changed.start_date) invalid_input
  raise_if (closes_late changed.rsvp_deadline changed.start_date) invalid_input

-- `Update`
unfoldable pub change_event : Env → ℕ → ℕ → ℕ → EventUpdateRequest → Action Db Event
unfolding check_changes with_changes update_event log_with_user
change_event v tenant user id req = do
  event ← get_event (v.down 0) id tenant
  let changed = with_changes (v.now 0) req event
  check_changes req event changed
  update_event (v.down 1) changed
  ignore (log_with_user (v.down 2) user tenant "update" "event" id)
  pure changed

-- `Publish`. The zero time is 0.
unfoldable pub publish : Env → ℕ → ℕ → ℕ → Action Db Event
unfolding update_event_status log_with_user
publish v tenant user id = do
  event ← get_event (v.down 0) id tenant
  raise_if (not (is_draft event.status)) event_invalid_status_transition
  raise_if (is_empty event.name) invalid_input
  raise_if (is_empty event.type) invalid_input
  raise_if (event.start_date == 0) invalid_input
  update_event_status (v.down 1) (v.now 0) id tenant EventStatus.published
  published ← get_event (v.down 2) id tenant
  ignore (log_with_user (v.down 3) user tenant "update" "event" id)
  pure published

-- `SoftDelete`
unfoldable pub delete_event : Env → ℕ → ℕ → ℕ → Action Db (Unit {0})
unfolding soft_delete_event log_with_user
delete_event v tenant user id = do
  event ← get_event (v.down 0) id tenant
  raise_if (is_ongoing event.status) event_cannot_delete
  soft_delete_event (v.down 1) (v.now 0) id tenant
  ignore (log_with_user (v.down 2) user tenant "delete" "event" id)
