-- ===== src/Event/Changes.antt =====
-- What an update makes of the stored events: `Update` of internal/service/event_service.go.
use guestbook.Prelude.{
  ℕ, is_empty, ◌≡◌, refl, ◌∙◌, ap, Bool, true, false, not, ◌&&◌, ◌||◌, none, some, inl, inr, arith,
  any, update_if, Bool-cases, Option-cases,
}
use guestbook.Action.{Error, event_cannot_modify, invalid_input, database, Env, ok, err}
use guestbook.Store.{
  is_valid_event_status, is_blank_event_status, Event, Db, is_event_of, find_event,
}
use guestbook.Event.Repo.{written_over, update_event}
use guestbook.Event.Service.{
  EventUpdateRequest, is_valid_event_type, ends_early, closes_late, is_over, with_changes,
  check_changes, change_event,
}
use guestbook.Event.Ordered.{IsSound}
use guestbook.Event.Effect.{Effect, same, changed, found_keys}

-- What `Update` tests, of the event as it is and with the changes.
abbrev may_change : EventUpdateRequest → Event → Event → Bool
may_change req e c =
    not (is_over e.status)
    && ((is_empty req.type || is_valid_event_type req.type)
        && ((is_blank_event_status req.status || is_valid_event_status req.status)
            && (not (ends_early c.end_date c.start_date)
                && not (closes_late c.rsvp_deadline c.start_date))))

check_passed :
    (req : EventUpdateRequest) (e c : Event) (db : Db)
    → may_change req e c ≡ true
    → check_changes req e c db ≡ (ok tt, db)
unfolding check_changes
check_passed req e c db good = ground (arith, good)

check_failed :
    (req : EventUpdateRequest) (e c : Event) (db : Db)
    → may_change req e c ≡ false
    → (x : Error) × (check_changes req e c db ≡ (err x, db))
unfolding check_changes
check_failed req e c db bad = elim (Bool-cases (is_over e.status)) [
  | inl over ↦ (event_cannot_modify, ground (arith, over))
  | inr going ↦ (invalid_input, ground (arith, going, bad))
]

changes-IsSound :
    (v : Env) (req : EventUpdateRequest) (e : Event)
    → may_change req e (with_changes (v.now 0) req e) ≡ true
    → IsSound e
    → IsSound (written_over (with_changes (v.now 0) req e) e)
unfolding with_changes
changes-IsSound v req e good h = record {
  typed = ground (arith, good, h.typed);
  known = ground (arith, good, h.known);
  ends = ground (arith, good);
  closes = ground (arith, good);
}

changes_keys :
    (now : ℕ) (req : EventUpdateRequest) (e : Event)
    → ((with_changes now req e).id ≡ e.id) × ((with_changes now req e).tenant_id ≡ e.tenant_id)
unfolding with_changes
changes_keys now req e = (refl, refl)

update_down :
    (down : Bool) (e : Event) (db : Db) → down ≡ true → update_event down e db ≡ (err database, db)
unfolding update_event
update_down down e db h = ground (arith, h)

update_event_lem :
    (down : Bool) (e : Event) (db : Db)
    → down ≡ false
    → any (is_event_of e.id e.tenant_id) db.events ≡ true
    → ((update_event down e db).0 ≡ ok tt)
      × ((update_event down e db).1.events
          ≡ update_if (is_event_of e.id e.tenant_id) (written_over e) db.events)
unfolding update_event
update_event_lem down e db h there = ground (arith, h, there)

change_refused :
    (v : Env) (tenant user id : ℕ) (req : EventUpdateRequest) (db : Db) (e : Event) (x : Error)
    → find_event id tenant db ≡ some e
    → check_changes req e (with_changes (v.now 0) req e) db ≡ (err x, db)
    → (change_event v tenant user id req db).1.events ≡ db.events
unfolding change_event
change_refused v tenant user id req db e x found failed = ground (arith, found, failed)

change_down :
    (v : Env) (tenant user id : ℕ) (req : EventUpdateRequest) (db : Db) (e : Event)
    → find_event id tenant db ≡ some e
    → check_changes req e (with_changes (v.now 0) req e) db ≡ (ok tt, db)
    → update_event (v.down 1) (with_changes (v.now 0) req e) db ≡ (err database, db)
    → (change_event v tenant user id req db).1.events ≡ db.events
unfolding change_event
change_down v tenant user id req db e found passed lost = ground (arith, found, passed, lost)

change_accepted :
    (v : Env) (tenant user id : ℕ) (req : EventUpdateRequest) (db : Db) (e : Event)
    → find_event id tenant db ≡ some e
    → any (is_event_of e.id e.tenant_id) db.events ≡ true
    → v.down 0 ≡ false
    → v.down 1 ≡ false
    → check_changes req e (with_changes (v.now 0) req e) db ≡ (ok tt, db)
    → (change_event v tenant user id req db).1.events
      ≡ update_if
          (is_event_of e.id e.tenant_id)
          (written_over (with_changes (v.now 0) req e))
          db.events
unfolding change_event
change_accepted v tenant user id req db e found there read up passed =
    let keys = changes_keys (v.now 0) req e in
    let new = with_changes (v.now 0) req e in
    let present : any (is_event_of new.id new.tenant_id) db.events ≡ true =
      ap (λ (i : ℕ). any (is_event_of i new.tenant_id) db.events) keys.0
      ∙ ap (λ (t : ℕ). any (is_event_of e.id t) db.events) keys.1
      ∙ there in
    ground (arith, found, read, passed, keys, update_event_lem (v.down 1) new db up present)

change_unread :
    (v : Env) (tenant user id : ℕ) (req : EventUpdateRequest) (db : Db)
    → v.down 0 ≡ true
    → (change_event v tenant user id req db).1.events ≡ db.events
unfolding change_event
change_unread v tenant user id req db lost = ground (arith, lost)

change_missing :
    (v : Env) (tenant user id : ℕ) (req : EventUpdateRequest) (db : Db)
    → find_event id tenant db ≡ none
    → (change_event v tenant user id req db).1.events ≡ db.events
unfolding change_event
change_missing v tenant user id req db gone = ground (arith, gone)

change_found :
    (v : Env) (tenant user id : ℕ) (req : EventUpdateRequest) (db : Db) (e : Event)
    → find_event id tenant db ≡ some e
    → v.down 0 ≡ false
    → Effect db (change_event v tenant user id req db).1
change_found v tenant user id req db e found read =
    let changed_event = with_changes (v.now 0) req e in
    let (by_id, of_tenant, _) = found_keys id tenant db e found in
    let own : find_event e.id e.tenant_id db ≡ some e =
      ap (λ (i : ℕ). find_event i e.tenant_id db) by_id
      ∙ ap (λ (t : ℕ). find_event id t db) of_tenant
      ∙ found in
    let (_, _, present) = found_keys e.id e.tenant_id db e own in
    elim (Bool-cases (may_change req e changed_event)) [
      | inl good ↦
          let passed = check_passed req e changed_event db good in
          elim (Bool-cases (v.down 1)) [
            | inl lost ↦ same (
                change_down v tenant user id req db e found passed
                  (update_down (v.down 1) changed_event db lost))
            | inr up ↦
                changed e.id e.tenant_id (written_over changed_event) e own
                  (changes-IsSound v req e good) (λ over. absurd (ground (arith, good, over)))
                  (λ x. refl)
                  (change_accepted v tenant user id req db e found present read up passed)
          ]
      | inr bad ↦
          let (x, failed) = check_failed req e changed_event db bad in
          same (change_refused v tenant user id req db e x found failed)
    ]

pub change-Effect :
    (v : Env) (tenant user id : ℕ) (req : EventUpdateRequest) (db : Db)
    → Effect db (change_event v tenant user id req db).1
change-Effect v tenant user id req db = elim (Bool-cases (v.down 0)) [
  | inl lost ↦ same (change_unread v tenant user id req db lost)
  | inr read ↦ elim (Option-cases (find_event id tenant db)) [
    | inl gone ↦ same (change_missing v tenant user id req db gone)
    | inr (e, found) ↦ change_found v tenant user id req db e found read
  ]
]
