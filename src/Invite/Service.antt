-- ===== src/Invite/Service.antt =====
-- internal/service/invitation_service.go.
use guestbook.Prelude.{
  ℕ, ◌+◌, ◌*◌, suc, ltb, ℤ, String, is_empty, Bool, true, false, not, Option, none, some, List, [],
  ◌∷◌, if◌then◌else◌, length,
}
use guestbook.Action.{
  Error, invalid_input, already_exists, is_not_found, token_invalid, invitation_not_found,
  invitation_revoked, invitation_expired, Result, ok, err, Action, Env, from, pure, ignore,
  raise_if, ◌>>=◌, ◌>>◌,
}
use guestbook.Store.{
  EventStatus, InvitationStatus, is_revoked, Invitation, Db, is_null, get_event, get_guest,
  get_event_guest, get_invitation_by_hash, log_with_user,
}
use guestbook.Rsvp.Service.{is_past, not_found_as}
use guestbook.Invite.Repo.{
  insert_invitation, get_invitation_by_id, exists_for_guest, revoke_invitation,
  soft_delete_invitation, mark_opened, log_credential_usage,
}

pub record InvitationCreateRequest : Type 0 where
  pub guest_ids : List ℕ
  pub max_pax : ℤ
  pub adults : ℤ
  pub children : ℤ
  pub plus_one_allowed : Bool
  pub plus_one_required : Bool
  pub expires_at : Option ℕ

-- What the service calls elsewhere: SHA-256 in hexadecimal, 32 random bytes as a text (drawing
-- them may fail), and the text of a link from the base URL and a token.
pub record Links : Type 0 where
  pub sha256 : String → String
  pub random_token : ℕ → Result String
  pub link : String → String

-- `event.Status == Cancelled || event.Status == Archived`
abbrev pub takes_no_invitations : EventStatus → Bool
takes_no_invitations EventStatus.cancelled = true
takes_no_invitations EventStatus.archived = true
takes_no_invitations _ = false

-- `if errors.Is(err, domain.ErrNotFound) { err = ErrInvalidInput }`
abbrev pub missing_as_invalid : {A : Type 0} → Action Db A → Action Db A
missing_as_invalid m db =
    let (r, db') = m db in
    elim r [ ok a ↦ (ok a, db') | err e ↦ (err (if is_not_found e then invalid_input else e), db') ]

abbrev pub drawn : Result String → Action Db String
drawn r db = (r, db)

-- The invitation that `Create` stores.
unfoldable pub new_invitation :
    Links → Env → ℕ → ℕ → ℕ → InvitationCreateRequest → ℕ → ℕ → String → Invitation
new_invitation c v tenant event by req guest entry token = record {
  id = v.fresh 1;
  created_at = v.now 0;
  updated_at = v.now 0;
  deleted_at = none;
  tenant_id = tenant;
  event_id = event;
  guest_id = guest;
  event_guest_id = some entry;
  token = token;
  token_hash = c.sha256 token;
  url = c.link token;
  max_pax = req.max_pax;
  adults = req.adults;
  children = req.children;
  plus_one_allowed = req.plus_one_allowed;
  plus_one_required = req.plus_one_required;
  status = InvitationStatus.draft;
  sent_at = none;
  failed_reason = none;
  opened_at = none;
  revoked_at = none;
  revoked_by = none;
  revoke_reason = none;
  expires_at = req.expires_at;
  created_by = by;
}

-- `Create`
unfoldable pub create_invitation :
    Links → Env → ℕ → ℕ → ℕ → InvitationCreateRequest → ℕ → Action Db Invitation
unfolding exists_for_guest new_invitation insert_invitation log_with_user
create_invitation c v tenant event_id by req guest = do
  event ← get_event (v.down 0) event_id tenant
  raise_if (takes_no_invitations event.status) invalid_input
  _ ← missing_as_invalid (get_guest (v.down 1) tenant guest)
  entry ← missing_as_invalid (get_event_guest (v.down 2) tenant event_id guest)
  exists ← exists_for_guest (v.down 3) event_id guest
  raise_if exists already_exists
  token ← drawn (c.random_token (v.fresh 0))
  let invitation = new_invitation c v tenant event_id by req guest entry.id token
  insert_invitation (v.down 4) invitation
  ignore (log_with_user (v.down 5) by tenant "create" "invitation" invitation.id)
  pure invitation

-- The loop of `GenerateBatch`: the invitations that were created, and the errors of the others. The
-- k-th guest's statements, readings and identifiers start at place 1 + 6 k.
unfoldable pub create_each :
    Links
    → Env
    → ℕ
    → ℕ
    → ℕ
    → InvitationCreateRequest
    → ℕ
    → List ℕ
    → Db
    → (List Invitation × List Error) × Db
unfolding create_invitation
create_each c v tenant event by req k [] db = (([], []), db)
create_each c v tenant event by req k (guest ∷ guests) db =
    let (r, db1) = create_invitation c (from (1 + 6 * k) v) tenant event by req guest db in
    let ((invitations, errors), db2) = create_each c v tenant event by req (suc k) guests db1 in
    elim r [ ok i ↦ ((i ∷ invitations, errors), db2) | err e ↦ ((invitations, e ∷ errors), db2) ]

-- `if len(invitations) == 0 && len(errorsList) > 0 { return errorsList[0] }`
abbrev pub batch_result : List Invitation × List Error → Result (List Invitation)
batch_result ([], e ∷ _) = err e
batch_result (invitations, _) = ok invitations

-- `GenerateBatch`
unfoldable pub generate_batch :
    Links → Env → ℕ → ℕ → ℕ → InvitationCreateRequest → Action Db (List Invitation)
unfolding create_each
generate_batch c v tenant event_id by req = do
  raise_if (ltb (length req.guest_ids) 1) invalid_input
  raise_if (ltb 500 (length req.guest_ids)) invalid_input
  event ← get_event (v.down 0) event_id tenant
  raise_if (takes_no_invitations event.status) invalid_input
  λ db.
      let (made, db') = create_each c v tenant event_id by req 0 req.guest_ids db in
      (batch_result made, db')

-- `ValidateToken`
unfoldable pub validate_invitation : Links → Env → String → Action Db Invitation
validate_invitation c v token = do
  raise_if (is_empty token) token_invalid
  i ← not_found_as token_invalid (get_invitation_by_hash (v.down 0) (c.sha256 token))
  raise_if (is_revoked i.status) invitation_revoked
  raise_if (not (is_null i.deleted_at)) invitation_not_found
  raise_if (is_past (v.now 0) i.expires_at) invitation_expired
  pure (record i { token = "" })

-- `Revoke`
unfoldable pub revoke_for : Env → ℕ → ℕ → ℕ → String → Action Db (Unit {0})
unfolding revoke_invitation log_with_user
revoke_for v tenant id by reason = do
  i ← get_invitation_by_id (v.down 0) id tenant
  raise_if (is_revoked i.status) invitation_revoked
  revoke_invitation (v.down 1) (v.now 0) id tenant by reason
  ignore (log_with_user (v.down 2) by tenant "reject" "invitation" id)

-- `SoftDelete`
unfoldable pub delete_invitation : Env → ℕ → ℕ → Action Db (Unit {0})
unfolding soft_delete_invitation
delete_invitation v tenant id = soft_delete_invitation (v.down 0) (v.now 0) id tenant

-- `RecordOpen`
unfoldable pub record_open : Links → Env → String → String → Action Db (Unit {0})
unfolding validate_invitation mark_opened log_credential_usage
record_open c v token ip = do
  i ← validate_invitation c v token
  mark_opened (v.down 1) (v.now 1) i.id
  ignore (
      log_credential_usage (v.down 2) (record {
        id = v.fresh 0;
        created_at = v.now 2;
        invitation_id = i.id;
        event_id = i.event_id;
        guest_id = i.guest_id;
        type = "opened";
        ip_address = some ip;
      }))
