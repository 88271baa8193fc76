-- ===== src/Event/Effect.antt =====
-- What each call of internal/service/event_service.go makes of the stored events.
use guestbook.Prelude.{
  ℕ, ◌==◌, String, is_empty, ◌≡◌, refl, Bool, true, false, not, ◌&&◌, Option, some, ◌∷◌, inl, inr,
  arith, any, update_if, find_first-passes, any_of_find_first, Bool-cases, Option-cases,
}
use guestbook.Action.{Env}
use guestbook.Store.{EventStatus, Event, Db, is_event_of, find_event}
use guestbook.Event.Repo.{insert_event, soft_delete_event, update_event_status}
use guestbook.Event.Service.{
  EventCreateRequest, is_valid_event_type, ends_early, closes_late, new_event, create_event,
  is_over, is_draft, is_ongoing, publish, delete_event,
}
use guestbook.Event.Ordered.{IsSound}

-- Nothing but the marks of a deletion.
abbrev pub Marked : Event → Event → Type 0
Marked e e' = (d : Option ℕ) × (u : ℕ) × (e' ≡ record e { deleted_at = d; updated_at = u })

-- The ways in which a call ends: the events are as they were, one is added, or one is changed, and
-- then it stays sound, and only marked if it was over.
pub data Effect (db : Db) (db' : Db) : Type 0 where
  same : db'.events ≡ db.events → Effect db db'
  added :
      (e : Event)
      → IsSound e
      → any (λ x. x.id == e.id) db.events ≡ false
      → db'.events ≡ e ∷ db.events
      → Effect db db'
  changed :
      (id tenant : ℕ) (f : Event → Event) (e : Event)
      → find_event id tenant db ≡ some e
      → (IsSound e → IsSound (f e))
      → (is_over e.status ≡ true → Marked e (f e))
      → ((x : Event) → (f x).id ≡ x.id)
      → db'.events ≡ update_if (is_event_of id tenant) f db.events
      → Effect db db'

-- What `Create` tests.
abbrev may_create : Env → EventCreateRequest → Bool
may_create v req =
    is_valid_event_type req.type
    && (not (ends_early req.end_date req.start_date)
        && (not (closes_late req.rsvp_deadline req.start_date) && not (v.down 0)))

pub create-Effect :
    (v : Env) (token : String) (tenant user : ℕ) (req : EventCreateRequest) (db : Db)
    → any (λ x. x.id == v.fresh 0) db.events ≡ false
    → Effect db (create_event v token tenant user req db).1
unfolding create_event new_event insert_event
create-Effect v token tenant user req db new = elim (Bool-cases (may_create v req)) [
  | inl good ↦
      added (record (new_event v tenant user req) { self_checkin_token = token })
        (record {
          typed = ground (arith, good);
          known = refl;
          ends = ground (arith, good);
          closes = ground (arith, good);
        })
        new (ground (arith, good))
  | inr bad ↦ same (ground (arith, bad))
]

-- What a search by id and tenant says of the event that it finds.
pub found_keys :
    (id tenant : ℕ) (db : Db) (e : Event)
    → find_event id tenant db ≡ some e
    → (e.id ≡ id) × (e.tenant_id ≡ tenant) × (any (is_event_of id tenant) db.events ≡ true)
unfolding find_event
found_keys id tenant db e found =
    let pass = find_first-passes (is_event_of id tenant) db.events e found in
    (
      ground (arith, pass),
      ground (arith, pass),
      any_of_find_first (is_event_of id tenant) (is_event_of id tenant) db.events e found pass,
    )

pub publish-Effect :
    (v : Env) (tenant user id : ℕ) (db : Db) → Effect db (publish v tenant user id db).1
unfolding publish update_event_status
publish-Effect v tenant user id db = elim (Option-cases (find_event id tenant db)) [
  | inl gone ↦ same (ground (arith, gone))
  | inr (e, found) ↦
      let (by_id, of_tenant, there) = found_keys id tenant db e found in
      let good =
        not (v.down 0)
        && (is_draft e.status
            && (not (is_empty e.name)
                && (not (is_empty e.type) && (not (e.start_date == 0) && not (v.down 1))))) in
      elim (Bool-cases good) [
        | inl good ↦
            changed id tenant
              (λ r. record r { status = EventStatus.published; updated_at = v.now 0 }) e found
              (λ h. record { typed = h.typed; known = refl; ends = h.ends; closes = h.closes })
              (λ over. absurd (ground (arith, good, over))) (λ x. refl)
              (ground (arith, good, found, there))
        | inr bad ↦ same (ground (arith, bad, found, there))
      ]
]

pub delete-Effect :
    (v : Env) (tenant user id : ℕ) (db : Db) → Effect db (delete_event v tenant user id db).1
unfolding delete_event soft_delete_event
delete-Effect v tenant user id db = elim (Option-cases (find_event id tenant db)) [
  | inl gone ↦ same (ground (arith, gone))
  | inr (e, found) ↦
      let (by_id, of_tenant, there) = found_keys id tenant db e found in
      elim (Bool-cases (not (v.down 0) && (not (is_ongoing e.status) && not (v.down 1)))) [
        | inl good ↦
            changed id tenant (λ r. record r { deleted_at = some (v.now 0); updated_at = v.now 0 })
              e found
              (λ h. record { typed = h.typed; known = h.known; ends = h.ends; closes = h.closes })
              (λ over. (some (v.now 0), v.now 0, refl)) (λ x. refl)
              (ground (arith, good, found, there))
        | inr bad ↦ same (ground (arith, bad, found, there))
      ]
]
