-- ===== src/Event/Ordered.antt =====
-- What every stored event is like: the checks of internal/service/event_service.go.
use guestbook.Prelude.{◌≡◌, true, false, All, Distinct}
use guestbook.Store.{is_valid_event_status, Event, Db}
use guestbook.Event.Service.{is_valid_event_type, ends_early, closes_late}

-- An event with a known type and status that does not end before it starts, and whose deadline
-- for answers is not after the start.
pub record IsSound (e : Event) : Type 0 where
  pub typed : is_valid_event_type e.type ≡ true
  pub known : is_valid_event_status e.status ≡ true
  pub ends : ends_early e.end_date e.start_date ≡ false
  pub closes : closes_late e.rsvp_deadline e.start_date ≡ false

-- Every event is sound, and ids are keys.
pub record AreSound (db : Db) : Type 0 where
  pub sound : All IsSound db.events
  pub keys : Distinct (λ e. e.id) db.events
