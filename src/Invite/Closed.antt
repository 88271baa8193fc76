-- ===== src/Invite/Closed.antt =====
-- An invitation that is taken back admits nobody again: internal/service/invitation_service.go and
-- `Submit` of internal/service/rsvp_service.go.
use guestbook.Prelude.{String, str_eq, ◌≡◌, true, All, Distinct}
use guestbook.Action.{Env, ok}
use guestbook.Store.{Invitation, RsvpResponse, Db}
use guestbook.Rsvp.Repo.{RsvpRequest}
use guestbook.Rsvp.Service.{submit}
use guestbook.Invite.Service.{Links, validate_invitation}

-- The ids of the invitations are keys, and no other one has this one's hash.
pub record IsKnown (i : Invitation) (db : Db) : Type 0 where
  pub ids : Distinct (λ (x : Invitation). x.id) db.invitations
  pub hashes : All (λ x. str_eq x.token_hash i.token_hash ≡ true → x ≡ i) db.invitations

-- Neither `ValidateToken` nor `Submit` accepts the token, in any environment and with any answer.
pub record IsRefused (c : Links) (token : String) (db : Db) : Type 0 where
  pub invalid : (v : Env) (x : Invitation) → ¬ ((validate_invitation c v token db).0 ≡ ok x)
  pub no_answer :
      (v : Env) (req : RsvpRequest) (ip : String) (r : RsvpResponse)
      → ¬ ((submit c.sha256 v token req ip db).0 ≡ ok r)
