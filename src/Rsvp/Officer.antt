-- ===== src/Rsvp/Officer.antt =====
-- internal/service/rsvp_service.go: the answers that an officer records.
--
-- `UpsertByOfficer` sends its statements at the places 0 the event, 1 the roster, 2 the
-- invitation, 3 the present answer, 4 to 6 the capacity check, 7 the write, 8 the invitation's
-- status, 9 the audit log, and reads a clock at 0, in `NewBase` at 1 and in the database at 2.
-- `UpdateByOfficer` has 0 the answer, 1 to 3 the capacity check, 4 the write, 5 the audit log.
use guestbook.Prelude.{ℕ, ◌==◌, pos, ltb_ℤ, not, ◌&&◌, Option, none, some, if◌then◌else◌}
use guestbook.Action.{
  not_found, rsvp_not_found, invalid_rsvp_status, invalid_input, invitation_not_found, ok, err,
  Action, Env, from, pure, ignore, raise_if, ◌>>=◌, ◌>>◌,
}
use guestbook.Store.{
  InvitationStatus, is_valid_rsvp_status, is_attending, is_not_attending, EventGuest, Invitation,
  RsvpResponse, Db, get_event, get_event_guest, get_invitation, update_invitation_status,
  log_with_user,
}
use guestbook.Rsvp.Repo.{RsvpRequest, with_texts, insert_rsvp, get_rsvp_by_id, update_rsvp}
use guestbook.Rsvp.Service.{check_attending, existing_rsvp}

-- The answer with the officer's written over it.
unfoldable pub edit_by_officer : ℕ → ℕ → RsvpRequest → RsvpResponse → RsvpResponse
unfolding with_texts
edit_by_officer now officer req r = with_texts req (record r {
  status = req.status;
  attending_pax = req.attending_pax;
  adults = req.adults;
  children = req.children;
  edited_at = some now;
  edited_by = some officer;
  updated_at = now;
})

-- `UpdateByOfficer`
unfoldable pub update_by_officer : Env → ℕ → ℕ → ℕ → ℕ → RsvpRequest → Action Db RsvpResponse
unfolding update_rsvp log_with_user
update_by_officer v tenant event id officer req = do
  raise_if (not (is_valid_rsvp_status req.status)) invalid_rsvp_status
  rsvp ← get_rsvp_by_id (v.down 0) id tenant
  raise_if (not (rsvp.event_id == event)) rsvp_not_found
  check_attending (from 1 v) event tenant req.attending_pax rsvp.invitation_id
      (is_attending req.status && not (is_attending rsvp.status))
  let edited = edit_by_officer (v.now 0) officer req rsvp
  update_rsvp (v.down 4) edited
  ignore (log_with_user (v.down 5) officer tenant "update" "rsvp" id)
  pure edited

-- A roster entry that is not there is the request's fault.
abbrev pub roster_error : {A : Type 0} → Action Db A → Action Db A
roster_error m db =
    let (r, db') = m db in
    elim r [ ok a ↦ (ok a, db') | err not_found ↦ (err invalid_input, db') | err e ↦ (err e, db') ]

-- The pax of a request after the two corrections of `UpsertByOfficer`.
abbrev pub corrected : RsvpRequest → RsvpRequest
corrected req = record req {
  attending_pax =
      if is_not_attending req.status
      then pos 0
      else if ltb_ℤ req.attending_pax (pos 0)
      then pos 0
      else req.attending_pax;
}

-- `existing.RespondedAt = &now` where it was nil.
abbrev pub responded_since : ℕ → Option ℕ → Option ℕ
responded_since now none = some now
responded_since now (some t) = some t

-- The first answer to an invitation, by an officer.
unfoldable pub officer_answer :
    Env → ℕ → ℕ → ℕ → ℕ → Invitation → EventGuest → RsvpRequest → RsvpResponse
unfolding with_texts
officer_answer v tenant event guest officer i eg req = with_texts req (record {
  id = v.fresh 0;
  created_at = v.now 1;
  updated_at = v.now 1;
  tenant_id = tenant;
  event_id = event;
  invitation_id = i.id;
  guest_id = guest;
  event_guest_id = some eg.id;
  status = req.status;
  attending_pax = req.attending_pax;
  adults = req.adults;
  children = req.children;
  menu_choice = none;
  allergies = none;
  accessibility_needs = none;
  transportation = none;
  notes = none;
  responded_at = some (v.now 0);
  edited_at = some (v.now 0);
  edited_by = some officer;
  ip_address = none;
})

-- The end of `UpsertByOfficer`.
unfoldable pub record_by_officer :
    Env
    → ℕ
    → ℕ
    → ℕ
    → ℕ
    → Invitation
    → EventGuest
    → RsvpRequest
    → Option RsvpResponse
    → Action Db RsvpResponse
unfolding update_rsvp insert_rsvp update_invitation_status log_with_user
record_by_officer v tenant event guest officer i eg req (some r) = do
  let edited = record (edit_by_officer (v.now 0) officer req r) {
    responded_at = responded_since (v.now 0) r.responded_at;
  }
  update_rsvp (v.down 7) edited
  ignore (update_invitation_status (v.down 8) (v.now 2) i.id i.tenant_id InvitationStatus.responded)
  ignore (log_with_user (v.down 9) officer tenant "update" "rsvp" r.id)
  pure edited
record_by_officer v tenant event guest officer i eg req none = do
  let rsvp = officer_answer v tenant event guest officer i eg req
  insert_rsvp (v.down 7) rsvp
  ignore (update_invitation_status (v.down 8) (v.now 2) i.id i.tenant_id InvitationStatus.responded)
  ignore (log_with_user (v.down 9) officer tenant "create" "rsvp" rsvp.id)
  pure rsvp

-- `UpsertByOfficer`
unfoldable pub upsert_by_officer : Env → ℕ → ℕ → ℕ → ℕ → RsvpRequest → Action Db RsvpResponse
upsert_by_officer v tenant event guest officer req = do
  raise_if (not (is_valid_rsvp_status req.status)) invalid_rsvp_status
  get_event (v.down 0) event tenant
  event_guest ← roster_error (get_event_guest (v.down 1) tenant event guest)
  invitation ← get_invitation (v.down 2) event guest
  raise_if (not (invitation.tenant_id == tenant)) invitation_not_found
  existing ← existing_rsvp (v.down 3) invitation.id
  check_attending (from 4 v) event tenant (corrected req).attending_pax invitation.id
      (is_attending req.status)
  record_by_officer v tenant event guest officer invitation event_guest (corrected req) existing
