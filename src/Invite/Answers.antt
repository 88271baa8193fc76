-- ===== src/Invite/Answers.antt =====
-- What an answer by internal/service/rsvp_service.go makes of the stored invitations.
use guestbook.Prelude.{
  ℕ, ltb_ℤ, String, ◌≡◌, refl, sym, Bool, false, not, ◌&&◌, Option, none, some, arith, any, inl,
  inr, Bool-cases, Option-cases,
}
use guestbook.Action.{
  Action, Env, from, ok, bind_keeps, bind_writes, raise_if, raise_if_read_only, invalid_rsvp_status,
  invalid_input, ignore, pure, ◌>>=◌, ◌>>◌,
}
use guestbook.Store.{
  InvitationStatus, is_attending, is_revoked, Invitation, RsvpResponse, Db, is_invitation_of,
  find_invitation_by_hash, update_invitation_status,
}
use guestbook.Rsvp.Repo.{RsvpRequest, insert_rsvp, update_rsvp}
use guestbook.Rsvp.Service.{
  submit, validate_token, validate_deadline, answer_invitation, record_answer, first_answer,
  edit_by_guest, check_attending, submitted_pax, existing_rsvp, is_valid_submit_status,
}
use guestbook.Rsvp.Effect.{
  token_read_only, token_accepted, deadline_read_only, attending_read_only, existing_read_only,
}
use guestbook.Invite.Service.{Links}
use guestbook.Invite.Effect.{Effect, same, answered}

invitations-insert_rsvp :
    (down : Bool) (r : RsvpResponse) (db : Db)
    → (insert_rsvp down r db).1.invitations ≡ db.invitations
unfolding insert_rsvp
invitations-insert_rsvp down r db = ground arith

invitations-update_rsvp :
    (down : Bool) (r : RsvpResponse) (db : Db)
    → (update_rsvp down r db).1.invitations ≡ db.invitations
unfolding update_rsvp
invitations-update_rsvp down r db = ground arith

module _ (c : Links) (v : Env) (db : Db) where
  mark-Effect :
      (i : Invitation) (hash : String) (down : Bool) (now : ℕ) (t : Db)
      → find_invitation_by_hash hash db ≡ some i
      → is_revoked i.status ≡ false
      → t.invitations ≡ db.invitations
      → Effect c v db
          (update_invitation_status down now i.id i.tenant_id InvitationStatus.responded t).1
  unfolding update_invitation_status
  mark-Effect i hash down now t found alive e =
      elim (Bool-cases (not down && any (is_invitation_of i.id i.tenant_id) t.invitations)) [
        | inr bad ↦ same (ground (arith, bad, e))
        | inl good ↦ answered i hash now found alive (rw (sym e) ground (arith, good))
      ]

  record-Effect :
      (w : Env) (i : Invitation) (hash ip : String) (req : RsvpRequest) (old : Option RsvpResponse)
      → find_invitation_by_hash hash db ≡ some i
      → is_revoked i.status ≡ false
      → Effect c v db (record_answer w i ip req old db).1
  unfolding record_answer
  record-Effect w i hash ip req none found alive =
      let r = first_answer w i ip req in
      let e = invitations-insert_rsvp (w.down 6) r db in
      let mark =
        update_invitation_status (w.down 7) (w.now 4) i.id i.tenant_id InvitationStatus.responded in
      bind_writes (Effect c v db) (insert_rsvp (w.down 6) r) (λ _. ignore mark >> pure r) db
        (same e) (λ _. mark-Effect i hash (w.down 7) (w.now 4) _ found alive e)
  record-Effect w i hash ip req (some old) found alive =
      let r = edit_by_guest (w.now 2) ip req old in
      let e = invitations-update_rsvp (w.down 6) r db in
      let mark =
        update_invitation_status (w.down 7) (w.now 4) i.id i.tenant_id InvitationStatus.responded in
      bind_writes (Effect c v db) (update_rsvp (w.down 6) r) (λ _. ignore mark >> pure r) db
        (same e) (λ _. mark-Effect i hash (w.down 7) (w.now 4) _ found alive e)

  answer-Effect :
      (i : Invitation) (hash ip : String) (req : RsvpRequest)
      → find_invitation_by_hash hash db ≡ some i
      → is_revoked i.status ≡ false
      → Effect c v db (answer_invitation v req ip i db).1
  unfolding answer_invitation
  answer-Effect i hash ip req found alive =
      let pax = submitted_pax req in
      let P = Effect c v db in
      let last : Action Db RsvpResponse =
        existing_rsvp (v.down 5) i.id >>= λ old. record_answer v i ip req old in
      let third : Action Db RsvpResponse = raise_if (ltb_ℤ i.max_pax pax) invalid_input >> last in
      let room =
        check_attending (from 2 v) i.event_id i.tenant_id pax i.id (is_attending req.status) in
      let second : Action Db RsvpResponse = room >> third in
      let known : Action Db (Unit {0}) =
        raise_if (not (is_valid_submit_status req.status)) invalid_rsvp_status in
      bind_keeps P (validate_deadline (from 1 v) i.event_id) (λ _. known >> second) db
        (deadline_read_only (from 1 v) i.event_id db) (same refl)
        (λ _ _.
          bind_keeps P known (λ _. second) db
            (raise_if_read_only (not (is_valid_submit_status req.status)) invalid_rsvp_status db)
            (same refl)
            (λ _ _.
              bind_keeps P room (λ _. third) db
                (attending_read_only (from 2 v) i.event_id i.tenant_id pax i.id
                  (is_attending req.status) db)
                (same refl)
                (λ _ _.
                  bind_keeps P (raise_if (ltb_ℤ i.max_pax pax) invalid_input) (λ _. last) db
                    (raise_if_read_only (ltb_ℤ i.max_pax pax) invalid_input db) (same refl)
                    (λ _ _.
                      bind_keeps P (existing_rsvp (v.down 5) i.id)
                        (λ old. record_answer v i ip req old) db
                        (existing_read_only (v.down 5) i.id db) (same refl)
                        (λ old _. record-Effect v i hash ip req old found alive)))))

  -- What a token that is accepted names.
  pub found_of :
      (token : String) (x : Invitation)
      → (validate_token c.sha256 v token db).0 ≡ ok x
      → (find_invitation_by_hash (c.sha256 token) db ≡ some x) × (is_revoked x.status ≡ false)
  unfolding validate_token
  found_of token x h = elim (Option-cases (find_invitation_by_hash (c.sha256 token) db)) [
    | inl gone ↦ absurd (ground (arith, gone, h))
    | inr (i, found) ↦
        let (whole, alive, _) = token_accepted c.sha256 v token db i x found h in
        let one : i ≡ x = ground (arith, found, h) in (rw (sym one) found, rw (sym one) alive)
  ]

  pub submit-Effect :
      (token : String) (req : RsvpRequest) (ip : String)
      → Effect c v db (submit c.sha256 v token req ip db).1
  unfolding submit
  submit-Effect token req ip =
      bind_keeps (Effect c v db) (validate_token c.sha256 v token) (answer_invitation v req ip) db
        (token_read_only c.sha256 v token db) (same refl)
        (λ i valid.
          let (found, alive) = found_of token i valid in
          answer-Effect i (c.sha256 token) ip req found alive)
