-- ===== src/Event/Steps.antt =====
-- Every history of the calls that create and change events (internal/service/event_service.go).
use guestbook.Prelude.{
  All-update_found, arith, ℕ, ◌==◌, String, ◌≡◌, false, some, List, any, All, find_first,
  All-find_first, update_if-Distinct,
}
use guestbook.Action.{Env}
use guestbook.Store.{Event, Db, is_event_of, find_event}
use guestbook.Event.Service.{
  EventCreateRequest, EventUpdateRequest, create_event, change_event, publish, delete_event,
}
use guestbook.Event.Ordered.{IsSound, AreSound}
use guestbook.Event.Effect.{
  Effect, found_keys, same, added, changed, create-Effect, publish-Effect, delete-Effect,
}
use guestbook.Event.Changes.{change-Effect}

-- One call, in any environment. An event that is created gets an id that no event has.
pub data Step (db : Db) : Db → Type 0 where
  create :
      (v : Env) (token : String) (tenant user : ℕ) (req : EventCreateRequest)
      → any (λ x. x.id == v.fresh 0) db.events ≡ false
      → Step db (create_event v token tenant user req db).1
  change :
      (v : Env) (tenant user id : ℕ) (req : EventUpdateRequest)
      → Step db (change_event v tenant user id req db).1
  open_up : (v : Env) (tenant user id : ℕ) → Step db (publish v tenant user id db).1
  delete : (v : Env) (tenant user id : ℕ) → Step db (delete_event v tenant user id db).1

pub data Reach (db : Db) : Db → Type 0 where
  here : Reach db db
  next : {s t : Db} → Reach db s → Step s t → Reach db t

pub Step-Effect : {s t : Db} → Step s t → Effect s t
Step-Effect {s = s} (create v token tenant user req new) =
    create-Effect v token tenant user req s new
Step-Effect {s = s} (change v tenant user id req) = change-Effect v tenant user id req s
Step-Effect {s = s} (open_up v tenant user id) = publish-Effect v tenant user id s
Step-Effect {s = s} (delete v tenant user id) = delete-Effect v tenant user id s

-- A search by tenant and id is a search by id that finds the same event.
pub found_in :
    (id tenant : ℕ) (db : Db) (e : Event)
    → find_event id tenant db ≡ some e
    → find_first (is_event_of id tenant) db.events ≡ some e
unfolding find_event
found_in id tenant db e h = h

Effect-AreSound : (s t : Db) → Effect s t → AreSound s → AreSound t
Effect-AreSound s t (same e) h = record { sound = rw e h.sound; keys = rw e h.keys }
Effect-AreSound s t (added e new fresh whole) h = record {
  sound = rw whole (new, h.sound);
  keys = rw whole (fresh, h.keys);
}
Effect-AreSound s t (changed id tenant f e found keeps over ids whole) h =
    let there = found_in id tenant s e found in
    let old : IsSound e = sound_of s.events there h.sound in
    record {
      sound = rw whole (
          All-update_found IsSound (λ x. x.id) (is_event_of id tenant) (is_event_of id tenant) f
            s.events e h.keys there (λ x q. ground (arith, q, found_keys id tenant s e found))
            (keeps old) h.sound);
      keys =
          rw whole (update_if-Distinct (λ x. x.id) (is_event_of id tenant) f s.events ids h.keys);
    }
  where
    sound_of :
        (xs : List Event)
        → find_first (is_event_of id tenant) xs ≡ some e
        → All IsSound xs
        → IsSound e
    sound_of xs there all = All-find_first IsSound (is_event_of id tenant) xs e all there

pub Reach-AreSound : {db s : Db} → AreSound db → Reach db s → AreSound s
Reach-AreSound h here = h
Reach-AreSound {db = db} h (next {s = s} {t = t} r step) =
    Effect-AreSound s t (Step-Effect step) (Reach-AreSound h r)
