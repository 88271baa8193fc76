-- ===== src/Checkin/Entries.antt =====
-- What each call of internal/service/checkin_service.go appends to the table checkins.
use guestbook.Prelude.{
  ℕ, ◌==◌, ℤ, String, is_empty, trim_space, ◌≡◌, refl, sym, ap, subst, ◌∙◌, Bool, true, false, not,
  Option, none, some, ◌∷◌, arith, inl, inr,
}
use guestbook.Action.{
  Action, Error, is_not_found, invalid_input, Result, Result-cases, ok, err, Env, from, gets,
  raise_if, raise_if_read_only, bind_keeps, bind_writes, ◌>>=◌, ◌>>◌,
}
use guestbook.Store.{
  CheckinMethod, CheckinStatus, Event, Guest, EventGuest, Invitation, Checkin, Db, get_guest,
  get_event_guest,
}
use guestbook.Checkin.Repo.{
  CheckinRequest, WalkinRequest, new_guest, insert_guest, insert_event_guest, successes,
  is_checked_in,
}
use guestbook.Checkin.Admission.{actor_of, checked_pax, record_failed, perform_checkin}
use guestbook.Checkin.Service.{
  find_guest_by_token, scan_result, or_record, on_failure, is_nil, process_qr_scan,
  process_manual_search, by_method, process_checkin, self_request, process_self_checkin,
}
use guestbook.Checkin.Walkin.{walkin_guest, walkin_entry, walkin_checkin, process_walkin}
use guestbook.Checkin.Once.{
  Entry, kept, refused, admitted, record_failed-Entry, perform_checkin-Entry,
}

-- A call that starts from the same check-ins.
Entry-from : {a b c : Db} → b.checkins ≡ a.checkins → Entry b c → Entry a c
unfolding is_checked_in successes
Entry-from e (kept same) = kept (same ∙ e)
Entry-from e (refused c failed same) = refused c failed (same ∙ ap (λ x. c ∷ x) e)
Entry-from {a = a} {b = b} e (admitted c new balanced same) =
    admitted c (ground (arith, e, new)) balanced (same ∙ ap (λ x. c ∷ x) e)

on_failure-Entry :
    (failed : Action Db Checkin) (e : Error) (test : Bool) (db : Db)
    → Entry db (failed db).1
    → Entry db (on_failure failed e test db).1
on_failure-Entry failed e true db h = h
on_failure-Entry failed e false db h = kept refl

or_record-Entry :
    {A : Type 0} (m : Action Db A) (failed : Action Db Checkin) (k : A → Action Db Checkin)
    (db : Db)
    → (m db).1 ≡ db
    → Entry db (failed db).1
    → ((a : A) → Entry db (k a db).1)
    → Entry db (or_record m failed k db).1
or_record-Entry m failed k db reads h next =
    let tail : Result _ → Db → Result Checkin × Db =
      λ r s. elim r [ ok a ↦ k a s | err e ↦ on_failure failed e (is_not_found e) s ] in
    elim (Result-cases (m db).0) [
      | inl (a, good) ↦
          subst (λ x. Entry db x.1) (sym (ap (λ r. tail r (m db).1) good ∙ ap (tail (ok a)) reads))
            (next a)
      | inr (e, bad) ↦
          subst (λ x. Entry db x.1) (sym (ap (λ r. tail r (m db).1) bad ∙ ap (tail (err e)) reads))
            (on_failure-Entry failed e (is_not_found e) db h)
    ]

read_guest : (down : Bool) (tenant id : ℕ) (db : Db) → (get_guest down tenant id db).1 ≡ db
read_guest down tenant id db = ground arith

read_roster :
    (down : Bool) (tenant event guest : ℕ) (db : Db)
    → (get_event_guest down tenant event guest db).1 ≡ db
read_roster down tenant event guest db = ground arith

module _ (v : Env) (tenant event : ℕ) (officer : Option ℕ) (req : CheckinRequest) (db : Db) where
  scan_result-Entry :
      (found : Result (Guest × Invitation))
      → Entry db (scan_result v tenant event officer req found db).1
  scan_result-Entry (ok (g, i)) =
      perform_checkin-Entry (from 3 v) tenant event g.id (some i.id) officer req db
  scan_result-Entry (err e) =
      on_failure-Entry
        (record_failed (v.down 3) (from 3 v) tenant event officer req CheckinStatus.invalid) e
        (is_not_found e) db
        (record_failed-Entry (v.down 3) (from 3 v) tenant event officer req CheckinStatus.invalid db
          refl)

  process_qr_scan-Entry :
      (sha256 : String → String) → Entry db (process_qr_scan sha256 v tenant event officer req db).1
  unfolding process_qr_scan
  process_qr_scan-Entry sha256 =
      let found = find_guest_by_token sha256 v tenant event (trim_space req.token) db in
      let rest : Action Db Checkin =
        gets (find_guest_by_token sha256 v tenant event (trim_space req.token))
        >>= scan_result v tenant event officer req in
      bind_keeps (Entry db) (raise_if (is_empty (trim_space req.token)) invalid_input) (λ _. rest)
        db (raise_if_read_only (is_empty (trim_space req.token)) invalid_input db) (kept refl)
        (λ _ _. scan_result-Entry found)

  process_manual_search-Entry : Entry db (process_manual_search v tenant event officer req db).1
  unfolding process_manual_search
  process_manual_search-Entry =
      let failed : CheckinStatus → Action Db Checkin =
        record_failed (v.down 2) (from 2 v) tenant event officer req in
      let last : Guest → Action Db Checkin = λ g.
        or_record (get_event_guest (v.down 1) tenant event g.id) (failed CheckinStatus.wrong_event)
          (λ _. perform_checkin (from 2 v) tenant event g.id none officer req) in
      let rest : Action Db Checkin =
        or_record (get_guest (v.down 0) tenant (actor_of req.guest_id))
          (failed CheckinStatus.invalid) last in
      bind_keeps (Entry db) (raise_if (is_nil req.guest_id) invalid_input) (λ _. rest) db
        (raise_if_read_only (is_nil req.guest_id) invalid_input db) (kept refl)
        (λ _ _.
          or_record-Entry (get_guest (v.down 0) tenant (actor_of req.guest_id))
            (failed CheckinStatus.invalid) last db
            (read_guest (v.down 0) tenant (actor_of req.guest_id) db)
            (record_failed-Entry (v.down 2) (from 2 v) tenant event officer req
              CheckinStatus.invalid db refl)
            (λ g.
              or_record-Entry (get_event_guest (v.down 1) tenant event g.id)
                (failed CheckinStatus.wrong_event)
                (λ _. perform_checkin (from 2 v) tenant event g.id none officer req) db
                (read_roster (v.down 1) tenant event g.id db)
                (record_failed-Entry (v.down 2) (from 2 v) tenant event officer req
                  CheckinStatus.wrong_event db refl)
                (λ _. perform_checkin-Entry (from 2 v) tenant event g.id none officer req db)))

by_method-Entry :
    (scan manual : Action Db Checkin) (method : CheckinMethod) (db : Db)
    → Entry db (scan db).1
    → Entry db (manual db).1
    → Entry db (by_method scan manual method db).1
by_method-Entry scan manual CheckinMethod.qr_scan db h g = h
by_method-Entry scan manual CheckinMethod.manual_search db h g = g
by_method-Entry scan manual CheckinMethod.walk_in db h g = kept refl
by_method-Entry scan manual CheckinMethod.kiosk db h g = kept refl
by_method-Entry scan manual (CheckinMethod.other s) db h g = kept refl

pub process_checkin-Entry :
    (sha256 : String → String) (v : Env) (tenant event : ℕ) (officer : Option ℕ)
    (req : CheckinRequest) (db : Db)
    → Entry db (process_checkin sha256 v tenant event officer req db).1
unfolding process_checkin
process_checkin-Entry sha256 v tenant event officer req db =
    by_method-Entry (process_qr_scan sha256 v tenant event officer req)
      (process_manual_search v tenant event officer req) req.method db
      (process_qr_scan-Entry v tenant event officer req db sha256)
      (process_manual_search-Entry v tenant event officer req db)

pub process_self_checkin-Entry :
    (v : Env) (event : Event) (i : Invitation) (pax : ℤ) (db : Db)
    → Entry db (process_self_checkin v event i pax db).1
unfolding process_self_checkin
process_self_checkin-Entry v event i pax db =
    let req = self_request (checked_pax pax) in
    bind_keeps (Entry db) (raise_if (not (event.id == i.event_id)) invalid_input)
      (λ _. perform_checkin v event.tenant_id event.id i.guest_id (some i.id) none req) db
      (raise_if_read_only (not (event.id == i.event_id)) invalid_input db) (kept refl)
      (λ _ _. perform_checkin-Entry v event.tenant_id event.id i.guest_id (some i.id) none req db)

insert_guest_same :
    (down : Bool) (g : Guest) (db : Db) → (insert_guest down g db).1.checkins ≡ db.checkins
unfolding insert_guest
insert_guest_same down g db = ground arith

insert_entry_same :
    (down : Bool) (eg : EventGuest) (db : Db)
    → (insert_event_guest down eg db).1.checkins ≡ db.checkins
unfolding insert_event_guest
insert_entry_same down eg db = ground arith

pub process_walkin-Entry :
    (v : Env) (tenant event : ℕ) (officer : Option ℕ) (req : WalkinRequest) (db : Db)
    → Entry db (process_walkin v tenant event officer req db).1
unfolding process_walkin
process_walkin-Entry v tenant event officer req db =
    let name = trim_space req.full_name in
    let guest = new_guest (v.fresh 0) (v.now 0) tenant (actor_of officer) (walkin_guest req name) in
    let entry = walkin_entry v tenant event (actor_of officer) req in
    let last : Action Db Checkin =
      perform_checkin (from 2 v) tenant event (v.fresh 0) none officer (walkin_checkin req) in
    let third : Action Db Checkin = insert_event_guest (v.down 1) entry >> last in
    let second : Action Db Checkin = insert_guest (v.down 0) guest >> third in
    let first : Action Db Checkin = raise_if (is_empty req.guest_type) invalid_input >> second in
    let db1 = (insert_guest (v.down 0) guest db).1 in
    let db2 = (insert_event_guest (v.down 1) entry db1).1 in
    let same1 : db1.checkins ≡ db.checkins = insert_guest_same (v.down 0) guest db in
    let same2 : db2.checkins ≡ db.checkins = insert_entry_same (v.down 1) entry db1 ∙ same1 in
    bind_keeps (Entry db) (raise_if (is_empty name) invalid_input) (λ _. first) db
      (raise_if_read_only (is_empty name) invalid_input db) (kept refl)
      (λ _ _.
        bind_keeps (Entry db) (raise_if (is_empty req.guest_type) invalid_input) (λ _. second) db
          (raise_if_read_only (is_empty req.guest_type) invalid_input db) (kept refl)
          (λ _ _.
            bind_writes (Entry db) (insert_guest (v.down 0) guest) (λ _. third) db (kept same1)
              (λ _.
                bind_writes (Entry db) (insert_event_guest (v.down 1) entry) (λ _. last) db1
                  (kept same2)
                  (λ _. Entry-from same2 (
                    perform_checkin-Entry (from 2 v) tenant event (v.fresh 0) none officer
                      (walkin_checkin req) db2)))))
