-- ===== src/Invite/Repo.antt =====
-- internal/repository/invitation_repository.go: the writes, and what reads by id. The searches by
-- token and by guest, and `UpdateStatus`, are among the store's queries.
use guestbook.Prelude.{
  ℕ, ◌==◌, ltb, String, Bool, ◌&&◌, Option, some, ◌∷◌, if◌then◌else◌, any, find_first, count_if,
  update_if,
}
use guestbook.Action.{invitation_not_found, ok, err, Action, gets, modify, statement}
use guestbook.Store.{
  InvitationStatus, Invitation, CredentialUsage, Db, is_null, select_one, is_invitation_of,
}

-- `Create`: the columns of the statement take in all fields, the raw token too.
unfoldable pub insert_invitation : Bool → Invitation → Action Db (Unit {0})
insert_invitation down i =
    statement down (modify (λ db. record db { invitations = i ∷ db.invitations }))

unfoldable pub find_invitation_by_id : ℕ → ℕ → Db → Option Invitation
find_invitation_by_id id tenant db = find_first (is_invitation_of id tenant) db.invitations

-- `GetByIDForTenant`
abbrev pub get_invitation_by_id : Bool → ℕ → ℕ → Action Db Invitation
get_invitation_by_id down id tenant =
    select_one down (find_invitation_by_id id tenant) invitation_not_found

-- A live invitation of the guest to the event.
abbrev pub is_live_for : ℕ → ℕ → Invitation → Bool
is_live_for event guest i = i.event_id == event && (i.guest_id == guest && is_null i.deleted_at)

-- `ExistsForGuest`
unfoldable pub exists_for_guest : Bool → ℕ → ℕ → Action Db Bool
exists_for_guest down event guest =
    statement down (gets (λ db. ltb 0 (count_if (is_live_for event guest) db.invitations)))

-- An UPDATE of the rows that the id, the tenant and `deleted_at IS NULL` address; no row is an
-- error.
abbrev pub update_invitations : Bool → ℕ → ℕ → (Invitation → Invitation) → Action Db (Unit {0})
update_invitations down id tenant f = statement down (λ db.
    if any (is_invitation_of id tenant) db.invitations
    then (
      ok tt,
      record db { invitations = update_if (is_invitation_of id tenant) f db.invitations },
    )
    else (err invitation_not_found, db))

abbrev pub as_revoked : ℕ → ℕ → String → Invitation → Invitation
as_revoked now by reason i = record i {
  status = InvitationStatus.revoked;
  revoked_at = some now;
  revoked_by = some by;
  revoke_reason = some reason;
  updated_at = now;
}

-- `Revoke`
unfoldable pub revoke_invitation : Bool → ℕ → ℕ → ℕ → ℕ → String → Action Db (Unit {0})
revoke_invitation down now id tenant by reason =
    update_invitations down id tenant (as_revoked now by reason)

abbrev pub as_deleted : ℕ → Invitation → Invitation
as_deleted now i = record i {
  deleted_at = some now;
  updated_at = now;
  status = InvitationStatus.revoked;
}

-- `SoftDelete`
unfoldable pub soft_delete_invitation : Bool → ℕ → ℕ → ℕ → Action Db (Unit {0})
soft_delete_invitation down now id tenant = update_invitations down id tenant (as_deleted now)

-- `CASE WHEN status = 'sent' THEN 'opened' ELSE status END`
abbrev pub opened_status : InvitationStatus → InvitationStatus
opened_status InvitationStatus.sent = InvitationStatus.opened
opened_status s = s

abbrev pub as_opened : ℕ → Invitation → Invitation
as_opened now i = record i {
  status = opened_status i.status;
  opened_at = some now;
  updated_at = now;
}

abbrev pub is_live_id : ℕ → Invitation → Bool
is_live_id id i = i.id == id && is_null i.deleted_at

-- `MarkOpened`: it may find no row.
unfoldable pub mark_opened : Bool → ℕ → ℕ → Action Db (Unit {0})
mark_opened down now id = statement down (
    modify
      (λ db. record db { invitations = update_if (is_live_id id) (as_opened now) db.invitations }))

-- `LogCredentialUsage`
unfoldable pub log_credential_usage : Bool → CredentialUsage → Action Db (Unit {0})
log_credential_usage down usage =
    statement down (modify (λ db. record db { usages = usage ∷ db.usages }))
