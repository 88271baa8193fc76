-- ===== src/Event/Repo.antt =====
-- internal/repository/event_repository.go: the writes. What reads one event is among the store's
-- queries.
use guestbook.Prelude.{
  ℕ, String, text_or, Bool, if◌then◌else◌, pointer_or, some, ◌∷◌, any, update_if,
}
use guestbook.Action.{event_not_found, ok, err, Action, modify, statement}
use guestbook.Store.{EventStatus, is_blank_event_status, Event, Db, is_event_of}

-- `Create`: the column that the statement leaves out, `self_checkin_token`, is filled by its
-- default, a random text.
unfoldable pub insert_event : Bool → String → Event → Action Db (Unit {0})
insert_event down token event =
    statement down (
      modify (λ db. record db { events = record event { self_checkin_token = token } ∷ db.events }))

-- An UPDATE of the rows that the id, the tenant and `deleted_at IS NULL` address; no row is an
-- error.
abbrev pub update_events : Bool → ℕ → ℕ → (Event → Event) → Action Db (Unit {0})
update_events down id tenant f = statement down (λ db.
    if any (is_event_of id tenant) db.events
    then (ok tt, record db { events = update_if (is_event_of id tenant) f db.events })
    else (err event_not_found, db))

-- `COALESCE(NULLIF(:status, ''), status)`
abbrev pub status_or : EventStatus → EventStatus → EventStatus
status_or s old = if is_blank_event_status s then old else s

-- The SET list of `Update`.
abbrev pub written_over : Event → Event → Event
written_over e r = record r {
  name = text_or e.name r.name;
  type = text_or e.type r.type;
  description = pointer_or e.description r.description;
  cover_url = pointer_or e.cover_url r.cover_url;
  status = status_or e.status r.status;
  start_date = e.start_date;
  end_date = pointer_or e.end_date r.end_date;
  rsvp_deadline = pointer_or e.rsvp_deadline r.rsvp_deadline;
  capacity = pointer_or e.capacity r.capacity;
  target_invites = pointer_or e.target_invites r.target_invites;
  target_attendance = pointer_or e.target_attendance r.target_attendance;
  primary_location_id = pointer_or e.primary_location_id r.primary_location_id;
  dress_code = pointer_or e.dress_code r.dress_code;
  privacy_notice = pointer_or e.privacy_notice r.privacy_notice;
  guest_policy = pointer_or e.guest_policy r.guest_policy;
  settings = pointer_or e.settings r.settings;
  updated_at = e.updated_at;
}

-- `Update`
unfoldable pub update_event : Bool → Event → Action Db (Unit {0})
update_event down e = update_events down e.id e.tenant_id (written_over e)

-- `SoftDelete`; `now` is the database's clock.
unfoldable pub soft_delete_event : Bool → ℕ → ℕ → ℕ → Action Db (Unit {0})
soft_delete_event down now id tenant =
    update_events down id tenant (λ r. record r { deleted_at = some now; updated_at = now })

-- `UpdateStatus`
unfoldable pub update_event_status : Bool → ℕ → ℕ → ℕ → EventStatus → Action Db (Unit {0})
update_event_status down now id tenant status =
    update_events down id tenant (λ r. record r { status = status; updated_at = now })
