-- ===== src/Rsvp/Service.antt =====
-- internal/service/rsvp_service.go: the checks, and the answer that a guest submits.
--
-- The places where `Submit` sends a statement are numbered: 0 the invitation, 1 the event, 2 to 4
-- the capacity check, 5 the present answer, 6 the write, 7 the invitation's status. So are those
-- where it reads a clock: 0 the expiry, 1 the deadline, 2 the answer's time, 3 `NewBase`, 4 the
-- database's.
use guestbook.Prelude.{
  ℕ, ltb, ℤ, pos, ltb_ℤ, ◌+ℤ◌, ◌-ℤ◌, wrap_int, String, is_empty, Bool, true, false, not, Option,
  none, some, if◌then◌else◌,
}
use guestbook.Action.{
  Error, rsvp_deadline_passed, event_at_capacity, invalid_rsvp_status, invalid_input, token_invalid,
  invitation_not_found, invitation_revoked, invitation_expired, ok, err, Action, Env, from, pure,
  gets, ignore, raise_if, statement, ◌>>=◌, ◌>>◌,
}
use guestbook.Store.{
  InvitationStatus, RsvpStatus, is_attending, is_not_attending, is_revoked, is_null, Event,
  Invitation, RsvpResponse, Db, get_event, get_event_any, get_invitation_by_hash,
  update_invitation_status,
}
use guestbook.Rsvp.Repo.{
  RsvpRequest, with_texts, insert_rsvp, find_rsvp, update_rsvp, sum_attending,
}

-- `t != nil && time.Now().UTC().After(*t)`
abbrev pub is_past : ℕ → Option ℕ → Bool
is_past now none = false
is_past now (some t) = ltb t now

-- `isValidRSVPSubmitStatus`
unfoldable pub is_valid_submit_status : RsvpStatus → Bool
is_valid_submit_status RsvpStatus.attending = true
is_valid_submit_status RsvpStatus.not_attending = true
is_valid_submit_status RsvpStatus.maybe = true
is_valid_submit_status _ = false

-- `errors.Is(err, from)` makes the error another one.
abbrev pub not_found_as : {A : Type 0} → Error → Action Db A → Action Db A
not_found_as e m db =
    let (r, db') = m db in
    elim r [ ok a ↦ (ok a, db') | err invitation_not_found ↦ (err e, db') | err e' ↦ (err e', db') ]

-- `validateTokenForRSVP`; `sha256` is `crypto.SHA256Hash`.
unfoldable pub validate_token : (String → String) → Env → String → Action Db Invitation
validate_token sha256 v token = do
  raise_if (is_empty token) token_invalid
  invitation ← not_found_as token_invalid (get_invitation_by_hash (v.down 0) (sha256 token))
  raise_if (is_revoked invitation.status) invitation_revoked
  raise_if (not (is_null invitation.deleted_at)) invitation_not_found
  raise_if (is_past (v.now 0) invitation.expires_at) invitation_expired
  pure invitation

-- `ValidateDeadline`
unfoldable pub validate_deadline : Env → ℕ → Action Db (Unit {0})
validate_deadline v event_id = do
  event ← get_event_any (v.down 0) event_id
  raise_if (is_past (v.now 0) event.rsvp_deadline) rsvp_deadline_passed

-- `event.Capacity == nil || *event.Capacity <= 0`, negated: the limit, if there is one.
abbrev pub limit_of : Event → Option ℤ
limit_of event = elim event.capacity [
  | none ↦ none
  | some c ↦ if ltb_ℤ (pos 0) c then some c else none
]

-- The pax of the invitation's present answer that the sum already counts. An error of the query
-- counts as no answer.
abbrev pub counted_pax : Bool → ℕ → Db → ℤ
counted_pax down invitation db = elim (find_rsvp invitation db) [
  | none ↦ pos 0
  | some r ↦ if not down then if is_attending r.status then r.attending_pax else pos 0 else pos 0
]

-- The rest of `ValidateCapacity`, for an event with a limit. The excluded invitation is never
-- `uuid.Nil`.
abbrev pub check_limit : Env → ℕ → ℤ → ℕ → Option ℤ → Action Db (Unit {0})
check_limit v event_id requested invitation none = pure tt
check_limit v event_id requested invitation (some capacity) = do
  current ← statement (v.down 1) (gets (sum_attending event_id))
  existing ← gets (counted_pax (v.down 2) invitation)
  let total = wrap_int (wrap_int (current -ℤ existing) +ℤ requested)
  raise_if (ltb_ℤ capacity total) event_at_capacity

-- `ValidateCapacity`
unfoldable pub validate_capacity : Env → ℕ → ℕ → ℤ → ℕ → Action Db (Unit {0})
validate_capacity v event_id tenant requested invitation = do
  event ← get_event (v.down 0) event_id tenant
  check_limit v event_id requested invitation (limit_of event)

-- `GetByInvitation`, where `ErrRSVPNotFound` is no error.
abbrev pub existing_rsvp : Bool → ℕ → Action Db (Option RsvpResponse)
existing_rsvp down invitation = statement down (gets (find_rsvp invitation))

-- The pax that `Submit` records.
abbrev pub submitted_pax : RsvpRequest → ℤ
submitted_pax req = if is_not_attending req.status then pos 0 else req.attending_pax

-- The present answer with the new one written over it.
unfoldable pub edit_by_guest : ℕ → String → RsvpRequest → RsvpResponse → RsvpResponse
unfolding with_texts
edit_by_guest now ip req r = with_texts req (record r {
  status = req.status;
  attending_pax = submitted_pax req;
  adults = req.adults;
  children = req.children;
  edited_at = some now;
  ip_address = some ip;
  updated_at = now;
})

-- The first answer to an invitation.
unfoldable pub first_answer : Env → Invitation → String → RsvpRequest → RsvpResponse
unfolding with_texts
first_answer v i ip req = with_texts req (record {
  id = v.fresh 0;
  created_at = v.now 3;
  updated_at = v.now 3;
  tenant_id = i.tenant_id;
  event_id = i.event_id;
  invitation_id = i.id;
  guest_id = i.guest_id;
  event_guest_id = i.event_guest_id;
  status = req.status;
  attending_pax = submitted_pax req;
  adults = req.adults;
  children = req.children;
  menu_choice = none;
  allergies = none;
  accessibility_needs = none;
  transportation = none;
  notes = none;
  responded_at = some (v.now 2);
  edited_at = none;
  edited_by = none;
  ip_address = some ip;
})

-- The end of `Submit`: the answer is updated or created, and the invitation marked.
unfoldable pub record_answer :
    Env → Invitation → String → RsvpRequest → Option RsvpResponse → Action Db RsvpResponse
unfolding update_rsvp insert_rsvp update_invitation_status
record_answer v i ip req (some r) = do
  let edited = edit_by_guest (v.now 2) ip req r
  update_rsvp (v.down 6) edited
  ignore (update_invitation_status (v.down 7) (v.now 4) i.id i.tenant_id InvitationStatus.responded)
  pure edited
record_answer v i ip req none = do
  let rsvp = first_answer v i ip req
  insert_rsvp (v.down 6) rsvp
  ignore (update_invitation_status (v.down 7) (v.now 4) i.id i.tenant_id InvitationStatus.responded)
  pure rsvp

-- The capacity check that an attending answer needs.
abbrev pub check_attending : Env → ℕ → ℕ → ℤ → ℕ → Bool → Action Db (Unit {0})
check_attending v event tenant pax invitation true = validate_capacity v event tenant pax invitation
check_attending v event tenant pax invitation false = pure tt

-- `Submit` after the token.
unfoldable pub answer_invitation : Env → RsvpRequest → String → Invitation → Action Db RsvpResponse
unfolding validate_deadline
answer_invitation v req ip invitation = do
  validate_deadline (from 1 v) invitation.event_id
  raise_if (not (is_valid_submit_status req.status)) invalid_rsvp_status
  check_attending (from 2 v) invitation.event_id invitation.tenant_id (submitted_pax req)
      invitation.id (is_attending req.status)
  raise_if (ltb_ℤ invitation.max_pax (submitted_pax req)) invalid_input
  existing ← existing_rsvp (v.down 5) invitation.id
  record_answer v invitation ip req existing

-- `Submit`
unfoldable pub submit :
    (String → String) → Env → String → RsvpRequest → String → Action Db RsvpResponse
unfolding validate_token
submit sha256 v token req ip = do
  invitation ← validate_token sha256 v token
  answer_invitation v req ip invitation
