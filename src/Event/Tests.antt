-- ===== src/Event/Tests.antt =====
-- A wedding that is planned, published and cancelled.
use guestbook.Prelude.{◌≡◌, refl, none, some, pos, [], ◌∷◌, any, find_first}
use guestbook.Action.{event_cannot_modify, event_invalid_status_transition, invalid_input, err}
use guestbook.Samples.{quiet, gala, sample_db}
use guestbook.Store.{EventStatus, Event, Db, find_event}
use guestbook.Event.Service.{
  EventCreateRequest, EventUpdateRequest, is_valid_event_type, create_event, change_event, publish,
  delete_event,
}
use guestbook.Event.Lists.{EventFilter}
use guestbook.Event.Ordered.{AreSound}
use guestbook.Event.Effect.{Marked}
use guestbook.Event.Steps.{here, next, change, delete}
use guestbook.Event.Final.{Stored, Reach-Marked}

abbrev wedding : Event
wedding = record gala { type = "wedding" }

abbrev over_wedding : Event
over_wedding = record wedding { status = EventStatus.cancelled }

abbrev one_event : Event → Db
one_event e = record sample_db { events = e ∷ [] }

abbrev request : EventCreateRequest
request = record {
  name = "Akad";
  type = "wedding";
  description = "";
  start_date = 900;
  end_date = some 950;
  rsvp_deadline = some 800;
  capacity = none;
  target_invites = none;
  target_attendance = none;
  dress_code = "";
  privacy_notice = "";
  guest_policy = "";
}

abbrev no_change : EventUpdateRequest
no_change = record {
  name = "";
  type = "";
  description = "";
  status = EventStatus.other "";
  start_date = none;
  end_date = none;
  rsvp_deadline = none;
  capacity = none;
  target_invites = none;
  target_attendance = none;
  dress_code = "";
  privacy_notice = "";
  guest_policy = "";
  settings = none;
}

abbrev created : Db
created = (create_event quiet "door" 7 9 request (one_event wedding)).1

over_wedding-AreSound : AreSound (one_event over_wedding)
unfolding is_valid_event_type any
over_wedding-AreSound = record {
  sound = (record { typed = refl; known = refl; ends = refl; closes = refl }, tt);
  keys = (refl, tt);
}

abbrev after_calls : Db
after_calls =
    (delete_event quiet 7 9 1 (change_event quiet 7 9 1 no_change (one_event over_wedding)).1).1

Reach-Marked_example : (e : Event) × Stored 1 after_calls e × Marked over_wedding e
unfolding find_first
Reach-Marked_example =
    Reach-Marked 1 over_wedding over_wedding-AreSound
      (next (next here (change quiet 7 9 1 no_change)) (delete quiet 7 9 1)) refl refl

abbrev all_events : EventFilter
all_events = record {
  status = EventStatus.other "";
  type = "";
  start_from = none;
  start_to = none;
  page = pos 0;
  per_page = pos 1;
}

-- An update of an event that is over is refused, and so is an unknown type.
over_refused :
    (change_event quiet 7 9 1 no_change (one_event over_wedding)).0 ≡ err event_cannot_modify
unfolding change_event find_first find_event
over_refused = refl

unknown_type :
    (create_event quiet "door" 7 9 (record request { type = "gala" }) sample_db).0
    ≡ err invalid_input
unfolding create_event any
unknown_type = refl

published_twice : (publish quiet 7 9 1 (one_event wedding)).0 ≡ err event_invalid_status_transition
unfolding publish find_first find_event
published_twice = refl
