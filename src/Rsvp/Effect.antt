-- ===== src/Rsvp/Effect.antt =====
-- What the calls of internal/service/rsvp_service.go write to rsvp_responses.
use guestbook.Prelude.{
  ℕ, ℤ, ◌≤ℤ◌, ltb_ℤ, String, ◌≡◌, refl, sym, ap, ◌∙◌, Bool, true, false, not, Option, none, some,
  ◌∷◌, arith, update_if, All, Distinct,
}
use guestbook.Action.{
  Action, raise_if, ◌>>=◌, ◌>>◌, invalid_rsvp_status, invalid_input, bind_ok, check_ok, ok, Env,
  from,
}
use guestbook.Store.{
  InvitationStatus, is_attending, is_revoked, Invitation, RsvpResponse, Db, find_invitation_by_hash,
  update_invitation_status,
}
use guestbook.Rsvp.Repo.{
  RsvpRequest, with_texts, update_rsvp, insert_rsvp, find_rsvp, is_rsvp_of, merge_rsvp,
}
use guestbook.Rsvp.Service.{
  submit, validate_token, validate_deadline, validate_capacity, submitted_pax, existing_rsvp,
  answer_invitation, record_answer, check_attending, first_answer, edit_by_guest, is_past,
  is_valid_submit_status,
}

-- The answers of a store belong to invitations of the same event and tenant; ids are keys, and an
-- invitation has one answer.
pub record IsAnswered (db : Db) : Type 0 where
  pub ids : Distinct (λ (r : RsvpResponse). r.id) db.rsvps
  pub one_each : Distinct (λ (r : RsvpResponse). r.invitation_id) db.rsvps
  pub owned :
      All
        (λ r.
          All
            (λ i. r.invitation_id ≡ i.id → (r.event_id ≡ i.event_id) × (r.tenant_id ≡ i.tenant_id))
            db.invitations)
        db.rsvps

pub rsvps-update_invitation_status :
    (down : Bool) (now id tenant : ℕ) (status : InvitationStatus) (db : Db)
    → (update_invitation_status down now id tenant status db).1.rsvps ≡ db.rsvps
unfolding update_invitation_status
rsvps-update_invitation_status down now id tenant status db = ground arith

module _ (v : Env) (i : Invitation) (ip : String) (req : RsvpRequest) (db : Db) where
  -- The rows after the call that created the answer.
  pub rsvps-record_answer-none :
      (r : RsvpResponse)
      → (record_answer v i ip req none db).0 ≡ ok r
      → (record_answer v i ip req none db).1.rsvps ≡ first_answer v i ip req ∷ db.rsvps
  unfolding record_answer insert_rsvp
  rsvps-record_answer-none r h =
      let new : Db = record db { rsvps = first_answer v i ip req ∷ db.rsvps } in
      ground (
        arith,
        h,
        rsvps-update_invitation_status (v.down 7) (v.now 4) i.id i.tenant_id
            InvitationStatus.responded new,
      )

  -- The rows after the call that updated it.
  pub rsvps-record_answer-some :
      (old r : RsvpResponse)
      → (record_answer v i ip req (some old) db).0 ≡ ok r
      → (record_answer v i ip req (some old) db).1.rsvps
        ≡ update_if
            (is_rsvp_of old.id old.tenant_id)
            (merge_rsvp (edit_by_guest (v.now 2) ip req old))
            db.rsvps
  unfolding record_answer update_rsvp edit_by_guest with_texts
  rsvps-record_answer-some old r h =
      let new : Db = record db {
        rsvps =
            update_if (is_rsvp_of old.id old.tenant_id)
              (merge_rsvp (edit_by_guest (v.now 2) ip req old)) db.rsvps;
      } in
      ground (
        arith,
        h,
        rsvps-update_invitation_status (v.down 7) (v.now 4) i.id i.tenant_id
            InvitationStatus.responded new,
      )

module _ (sha256 : String → String) (v : Env) (token : String) (db : Db) where
  -- What a valid token has passed.
  pub token_accepted :
      (i x : Invitation)
      → find_invitation_by_hash (sha256 token) db ≡ some i
      → (validate_token sha256 v token db).0 ≡ ok x
      → (validate_token sha256 v token db ≡ (ok i, db))
        × (is_revoked i.status ≡ false)
        × (is_past (v.now 0) i.expires_at ≡ false)
  unfolding validate_token
  token_accepted i x found h = ground (arith, found, h)

  pub token_read_only : (validate_token sha256 v token db).1 ≡ db
  unfolding validate_token
  token_read_only = ground arith

pub deadline_read_only : (v : Env) (event : ℕ) (db : Db) → (validate_deadline v event db).1 ≡ db
unfolding validate_deadline
deadline_read_only v event db = ground arith

pub capacity_read_only :
    (v : Env) (event tenant : ℕ) (pax : ℤ) (invitation : ℕ) (db : Db)
    → (validate_capacity v event tenant pax invitation db).1 ≡ db
unfolding validate_capacity
capacity_read_only v event tenant pax invitation db = ground arith

pub attending_read_only :
    (v : Env) (event tenant : ℕ) (pax : ℤ) (invitation : ℕ) (attending : Bool) (db : Db)
    → (check_attending v event tenant pax invitation attending db).1 ≡ db
attending_read_only v event tenant pax invitation true db =
    capacity_read_only v event tenant pax invitation db
attending_read_only v event tenant pax invitation false db = refl

pub existing_read_only :
    (down : Bool) (invitation : ℕ) (db : Db) → (existing_rsvp down invitation db).1 ≡ db
existing_read_only true invitation db = refl
existing_read_only false invitation db = refl

existing_is :
    (down : Bool) (invitation : ℕ) (db : Db) (x : Option RsvpResponse)
    → (existing_rsvp down invitation db).0 ≡ ok x
    → find_rsvp invitation db ≡ x
existing_is true invitation db x h = cc h
existing_is false invitation db x h = cc h

-- What an answer that is accepted has passed, and the write that it ends with.
pub answer_accepted :
    (v : Env) (req : RsvpRequest) (ip : String) (db : Db) (i : Invitation) (r : RsvpResponse)
    → (answer_invitation v req ip i db).0 ≡ ok r
    → (is_valid_submit_status req.status ≡ true)
      × (submitted_pax req ≤ℤ i.max_pax)
      × ((validate_deadline (from 1 v) i.event_id db).0 ≡ ok tt)
      × ((check_attending
            (from 2 v)
            i.event_id
            i.tenant_id
            (submitted_pax req)
            i.id
            (is_attending req.status)
            db).0
          ≡ ok tt)
      × (answer_invitation v req ip i db ≡ record_answer v i ip req (find_rsvp i.id db) db)
unfolding answer_invitation
answer_accepted v req ip db i r h =
    let pax = submitted_pax req in
    let attending = is_attending req.status in
    let last : Action Db RsvpResponse =
      existing_rsvp (v.down 5) i.id >>= λ old. record_answer v i ip req old in
    let third : Action Db RsvpResponse = raise_if (ltb_ℤ i.max_pax pax) invalid_input >> last in
    let room_for = check_attending (from 2 v) i.event_id i.tenant_id pax i.id attending in
    let second : Action Db RsvpResponse = room_for >> third in
    let first : Action Db RsvpResponse =
      raise_if (not (is_valid_submit_status req.status)) invalid_rsvp_status >> second in
    let (_, on_time, e1, h1) =
      bind_ok (validate_deadline (from 1 v) i.event_id) (λ _. first) db r
        (deadline_read_only (from 1 v) i.event_id db) h in
    let (valid, e2, h2) =
      check_ok (not (is_valid_submit_status req.status)) invalid_rsvp_status (λ _. second) db r
        h1 in
    let (_, room, e3, h3) =
      bind_ok room_for (λ _. third) db r
        (attending_read_only (from 2 v) i.event_id i.tenant_id pax i.id attending db) h2 in
    let (fits, e4, h4) = check_ok (ltb_ℤ i.max_pax pax) invalid_input (λ _. last) db r h3 in
    let (old, found, e5, h5) =
      bind_ok (existing_rsvp (v.down 5) i.id) (λ old. record_answer v i ip req old) db r
        (existing_read_only (v.down 5) i.id db) h4 in
    let valid_status : is_valid_submit_status req.status ≡ true = ground arith in
    let in_max : pax ≤ℤ i.max_pax = ground arith in
    let same = existing_is (v.down 5) i.id db old found in
    (
      valid_status,
      in_max,
      on_time,
      room,
      e1 ∙ e2 ∙ e3 ∙ e4 ∙ e5 ∙ ap (λ x. record_answer v i ip req x db) (sym same),
    )

-- What a submission that is accepted has passed, and the write that it ends with.
pub submit_accepted :
    (sha256 : String → String) (v : Env) (token : String) (req : RsvpRequest) (ip : String)
    (db : Db) (i : Invitation) (r : RsvpResponse)
    → find_invitation_by_hash (sha256 token) db ≡ some i
    → (submit sha256 v token req ip db).0 ≡ ok r
    → (is_revoked i.status ≡ false)
      × (is_past (v.now 0) i.expires_at ≡ false)
      × ((answer_invitation v req ip i db).0 ≡ ok r)
      × (submit sha256 v token req ip db ≡ answer_invitation v req ip i db)
unfolding submit
submit_accepted sha256 v token req ip db i r found h =
    let (x, valid, e, h1) =
      bind_ok (validate_token sha256 v token) (answer_invitation v req ip) db r
        (token_read_only sha256 v token db) h in
    let (token_ok, alive, early) = token_accepted sha256 v token db i x found valid in
    let same : x ≡ i = ground (arith, valid, token_ok) in
    (
      alive,
      early,
      ap (λ y. (answer_invitation v req ip y db).0) (sym same) ∙ h1,
      e ∙ ap (λ y. answer_invitation v req ip y db) same,
    )
