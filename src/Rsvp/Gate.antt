-- ===== src/Rsvp/Gate.antt =====
-- Who may answer: the checks of `Submit` in internal/service/rsvp_service.go, and what a refusal
-- leaves behind.
use guestbook.Prelude.{ℕ, ◌≤ℤ◌, ltb_ℤ, String, ◌≡◌, true, false, not, Option, none, some, arith}
use guestbook.Action.{
  Action, Error, ok, err, Env, from, raise_if, invalid_rsvp_status, invalid_input, bind_clean,
  raise_if_read_only, ◌>>=◌, ◌>>◌,
}
use guestbook.Store.{
  is_attending, is_revoked, Event, Invitation, RsvpResponse, Db, find_event_any,
  find_invitation_by_hash,
}
use guestbook.Rsvp.Repo.{RsvpRequest, insert_rsvp, update_rsvp}
use guestbook.Rsvp.Service.{
  submit, answer_invitation, existing_rsvp, validate_token, validate_deadline, submitted_pax,
  record_answer, check_attending, is_past, is_valid_submit_status,
}
use guestbook.Rsvp.Effect.{
  token_read_only, deadline_read_only, attending_read_only, existing_read_only, answer_accepted,
  submit_accepted,
}

deadline_kept :
    (v : Env) (event : ℕ) (db : Db) (e : Event)
    → find_event_any event db ≡ some e
    → (validate_deadline v event db).0 ≡ ok tt
    → is_past (v.now 0) e.rsvp_deadline ≡ false
unfolding validate_deadline
deadline_kept v event db e found h = ground (arith, found, h)

-- A submission that is accepted, with the token of an invitation to an event that is there, was
-- made when the invitation was not revoked and had not expired, before the event's deadline, with
-- a status that guests may choose, for no more people than the invitation admits.
pub submit_gate :
    (sha256 : String → String) (v : Env) (token : String) (req : RsvpRequest) (ip : String)
    (db : Db) (i : Invitation) (e : Event) (r : RsvpResponse)
    → find_invitation_by_hash (sha256 token) db ≡ some i
    → find_event_any i.event_id db ≡ some e
    → (submit sha256 v token req ip db).0 ≡ ok r
    → (is_revoked i.status ≡ false)
      × (is_past (v.now 0) i.expires_at ≡ false)
      × (is_past (v.now 1) e.rsvp_deadline ≡ false)
      × (is_valid_submit_status req.status ≡ true)
      × (submitted_pax req ≤ℤ i.max_pax)
submit_gate sha256 v token req ip db i e r found event h =
    let (alive, early, answered, _) = submit_accepted sha256 v token req ip db i r found h in
    let (valid, in_max, on_time, _, _) = answer_accepted v req ip db i r answered in
    (alive, early, deadline_kept (from 1 v) i.event_id db e event on_time, valid, in_max)

record_clean :
    (v : Env) (i : Invitation) (ip : String) (req : RsvpRequest) (old : Option RsvpResponse)
    (db : Db) (e : Error)
    → (record_answer v i ip req old db).0 ≡ err e
    → (record_answer v i ip req old db).1 ≡ db
unfolding record_answer update_rsvp insert_rsvp
record_clean v i ip req none db e h = ground (arith, h)
record_clean v i ip req (some old) db e h = ground (arith, h)

answer_clean :
    (v : Env) (req : RsvpRequest) (ip : String) (i : Invitation) (db : Db) (e : Error)
    → (answer_invitation v req ip i db).0 ≡ err e
    → (answer_invitation v req ip i db).1 ≡ db
unfolding answer_invitation
answer_clean v req ip i db e h =
    let pax = submitted_pax req in
    let attending = is_attending req.status in
    let last : Action Db RsvpResponse =
      existing_rsvp (v.down 5) i.id >>= λ old. record_answer v i ip req old in
    let third : Action Db RsvpResponse = raise_if (ltb_ℤ i.max_pax pax) invalid_input >> last in
    let room_for = check_attending (from 2 v) i.event_id i.tenant_id pax i.id attending in
    let second : Action Db RsvpResponse = room_for >> third in
    let invalid = not (is_valid_submit_status req.status) in
    let first : Action Db RsvpResponse = raise_if invalid invalid_rsvp_status >> second in
    bind_clean (validate_deadline (from 1 v) i.event_id) (λ _. first) db e
      (deadline_read_only (from 1 v) i.event_id db)
      (λ _.
        bind_clean (raise_if invalid invalid_rsvp_status) (λ _. second) db e
          (raise_if_read_only invalid invalid_rsvp_status db)
          (λ _.
            bind_clean room_for (λ _. third) db e
              (attending_read_only (from 2 v) i.event_id i.tenant_id pax i.id attending db)
              (λ _.
                bind_clean (raise_if (ltb_ℤ i.max_pax pax) invalid_input) (λ _. last) db e
                  (raise_if_read_only (ltb_ℤ i.max_pax pax) invalid_input db)
                  (λ _.
                    bind_clean (existing_rsvp (v.down 5) i.id) (record_answer v i ip req) db e
                      (existing_read_only (v.down 5) i.id db)
                      (λ old. record_clean v i ip req old db e)))))
      h

-- A submission that is refused, for whatever reason, leaves the store as it was.
pub submit_refused :
    (sha256 : String → String) (v : Env) (token : String) (req : RsvpRequest) (ip : String)
    (db : Db) (e : Error)
    → (submit sha256 v token req ip db).0 ≡ err e
    → (submit sha256 v token req ip db).1 ≡ db
unfolding submit
submit_refused sha256 v token req ip db e =
    bind_clean (validate_token sha256 v token) (answer_invitation v req ip) db e
      (token_read_only sha256 v token db) (λ i. answer_clean v req ip i db e)
