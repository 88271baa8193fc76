-- ===== src/Invite/Tests.antt =====
-- Invitations at a concrete store.
use guestbook.Prelude.{◌≡◌, refl, none, pos, [], ◌∷◌, arith, any, find_first, count_if, false, List}
use guestbook.Action.{ok, err, already_exists}
use guestbook.Samples.{quiet, invitation_of, sample_db}
use guestbook.Store.{Invitation, Db, find_event, find_event_guest, find_guest, has_guest}
use guestbook.Invite.Repo.{exists_for_guest}
use guestbook.Invite.Service.{Links, InvitationCreateRequest, create_invitation, revoke_for}
use guestbook.Invite.Once.{OneEach}
use guestbook.Invite.Calls.{Request, inviting_all, serve_all, one_invitation_each}

abbrev plain : Links
plain = record { sha256 = λ s. s; random_token = λ n. ok "raw"; link = λ s. s }

abbrev for_two : InvitationCreateRequest
for_two = record {
  guest_ids = 11 ∷ 12 ∷ [];
  max_pax = pos 2;
  adults = pos 2;
  children = pos 0;
  plus_one_allowed = false;
  plus_one_required = false;
  expires_at = none;
}

abbrev ana : Invitation
ana = invitation_of 31 11 21 "token-ana"

abbrev taken_back : Db
taken_back = (revoke_for quiet 7 31 9 "moved away" sample_db).1

abbrev calls : List Request
calls = record { env = quiet; call = inviting_all 7 1 9 for_two } ∷ []

sample-OneEach : OneEach sample_db
unfolding count_if
sample-OneEach event guest = ground arith

one_invitation_each_example : OneEach (serve_all plain calls sample_db)
one_invitation_each_example = one_invitation_each plain calls sample_db sample-OneEach

-- A guest who has an invitation gets no second one.
second_invitation :
    (create_invitation plain quiet 7 1 9 for_two 11 sample_db).0 ≡ err already_exists
unfolding create_invitation exists_for_guest find_event find_event_guest find_guest has_guest
    count_if find_first any
second_invitation = refl
