-- ===== src/Checkin/Twice.antt =====
-- Who is admitted: `performCheckin` of internal/service/checkin_service.go when it succeeds.
use guestbook.Prelude.{
  ℕ, ◌≡◌, ◌≢◌, ap, subst, ◌∙◌, inl, inr, Bool, true, false, Option, none, arith, Bool-cases,
  count_if,
}
use guestbook.Action.{Action, statement, gets, gets_is, gets_read_only, bind_ok, ok, Env, ◌>>=◌}
use guestbook.Store.{
  Event, EventGuest, Checkin, Db, find_event, find_event_guest, get_event, log_with_user,
}
use guestbook.Checkin.Repo.{CheckinRequest, insert_checkin, successes, is_checked_in}
use guestbook.Checkin.Admission.{
  require_entry, admit_or_refuse, record_failed, admit, new_checkin, perform_checkin,
}
use guestbook.Checkin.Once.{read_event, read_entry}

module _ (v : Env) (tenant event guest : ℕ) (invitation officer : Option ℕ) (req : CheckinRequest)
    (db : Db) (c : Checkin) where
  event_found :
      (e : Event)
      → (get_event (v.down 0) event tenant db).0 ≡ ok e
      → find_event event tenant db ≢ none
  event_found e h missing = ground (arith, h, missing)

  entry_found :
      (e : EventGuest)
      → (require_entry (v.down 1) tenant event guest db).0 ≡ ok e
      → find_event_guest tenant event guest db ≢ none
  entry_found e h missing = ground (arith, h, missing)

  admit_counts :
      (entry : ℕ)
      → (admit v tenant event guest entry invitation officer req db).0 ≡ ok c
      → is_checked_in tenant event guest
          (admit v tenant event guest entry invitation officer req db).1
        ≡ true
  unfolding admit insert_checkin new_checkin log_with_user is_checked_in successes count_if
  admit_counts entry h = ground (arith, h)

  refused_fails :
      (entry : ℕ)
      → (admit_or_refuse v tenant event guest entry invitation officer req true db).0 ≢ ok c
  unfolding record_failed
  refused_fails entry h = cc h

  -- A check-in that succeeds is of a guest on the event's roster, at an event of the tenant, who
  -- was not checked in there before and is now.
  pub perform_checkin_accepted :
      (perform_checkin v tenant event guest invitation officer req db).0 ≡ ok c
      → (find_event event tenant db ≢ none)
        × (find_event_guest tenant event guest db ≢ none)
        × (is_checked_in tenant event guest db ≡ false)
        × (is_checked_in tenant event guest
              (perform_checkin v tenant event guest invitation officer req db).1
            ≡ true)
  unfolding perform_checkin
  perform_checkin_accepted h =
      let count : Action Db Bool = statement (v.down 2) (gets (is_checked_in tenant event guest)) in
      let last : ℕ → Bool → Action Db Checkin = λ entry present.
        admit_or_refuse v tenant event guest entry invitation officer req present in
      let rest : EventGuest → Action Db Checkin = λ entry. count >>= last entry.id in
      let (e, event_read, e1, h1) =
        bind_ok (get_event (v.down 0) event tenant)
          (λ _. require_entry (v.down 1) tenant event guest >>= rest) db c
          (read_event (v.down 0) event tenant db) h in
      let (entry, entry_read, e2, h2) =
        bind_ok (require_entry (v.down 1) tenant event guest) rest db c
          (read_entry (v.down 1) tenant event guest db) h1 in
      let (present, counted, e3, h3) =
        bind_ok count (last entry.id) db c
          (gets_read_only (v.down 2) (is_checked_in tenant event guest) db) h2 in
      let present_is : is_checked_in tenant event guest db ≡ present =
        gets_is (v.down 2) (is_checked_in tenant event guest) db present counted in
      elim (Bool-cases present) [
        | inl there ↦
            absurd (refused_fails entry.id (subst (λ b. (last entry.id b db).0 ≡ ok c) there h3))
        | inr absent ↦
            let admitted : (last entry.id false db).0 ≡ ok c =
              subst (λ b. (last entry.id b db).0 ≡ ok c) absent h3 in
            (
              event_found e event_read,
              entry_found entry entry_read,
              present_is ∙ absent,
              ap (λ x. is_checked_in tenant event guest x.1)
                    (e1 ∙ e2 ∙ e3 ∙ ap (λ b. last entry.id b db) absent)
                  ∙ admit_counts entry.id admitted,
            )
      ]

-- After a check-in that succeeds, another attempt for the same guest at the same event does not,
-- whoever makes it, in whichever way and environment.
pub perform_checkin-perform_checkin :
    (v w : Env) (tenant event guest : ℕ) (i j officer other : Option ℕ) (req again : CheckinRequest)
    (db : Db) (c d : Checkin)
    → (perform_checkin v tenant event guest i officer req db).0 ≡ ok c
    → (perform_checkin w tenant event guest j other again
        (perform_checkin v tenant event guest i officer req db).1).0
      ≢ ok d
perform_checkin-perform_checkin v w tenant event guest i j officer other req again db c d h h' =
    let (_, _, _, now) = perform_checkin_accepted v tenant event guest i officer req db c h in
    let (_, _, before, _) =
      perform_checkin_accepted w tenant event guest j other again
        (perform_checkin v tenant event guest i officer req db).1 d h' in
    cc (now, before)
