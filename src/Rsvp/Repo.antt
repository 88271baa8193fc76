-- ===== src/Rsvp/Repo.antt =====
-- internal/repository/rsvp_repository.go, and the requests of internal/domain/rsvp.go. The field
-- `AttendingSessions` has no column and is left out.
use guestbook.Prelude.{
  ℕ, ◌==◌, ℤ, pos, String, Bool, ◌&&◌, Option, ◌∷◌, if◌then◌else◌, find_first, any, update_if,
  sum_of, opt_text_or,
}
use guestbook.Action.{rsvp_not_found, ok, err, Action, statement, modify}
use guestbook.Store.{RsvpStatus, is_attending, RsvpResponse, Db, select_one}

-- The answer that a request carries: `RSVPUpdateRequest`, and `RSVPSubmitRequest` but for its
-- token.
pub record RsvpRequest : Type 0 where
  pub status : RsvpStatus
  pub attending_pax : ℤ
  pub adults : ℤ
  pub children : ℤ
  pub menu_choice : String
  pub allergies : String
  pub accessibility_needs : String
  pub transportation : String
  pub notes : String

-- The five texts that a request overwrites where it has one.
unfoldable pub with_texts : RsvpRequest → RsvpResponse → RsvpResponse
with_texts req r = record r {
  menu_choice = opt_text_or req.menu_choice r.menu_choice;
  allergies = opt_text_or req.allergies r.allergies;
  accessibility_needs = opt_text_or req.accessibility_needs r.accessibility_needs;
  transportation = opt_text_or req.transportation r.transportation;
  notes = opt_text_or req.notes r.notes;
}

-- `Create`; `invitation_id` has a unique index.
unfoldable pub insert_rsvp : Bool → RsvpResponse → Action Db (Unit {0})
insert_rsvp down rsvp = statement down (modify (λ db. record db { rsvps = rsvp ∷ db.rsvps }))

unfoldable pub find_rsvp : ℕ → Db → Option RsvpResponse
find_rsvp invitation db = find_first (λ r. r.invitation_id == invitation) db.rsvps

-- `GetByInvitation`
abbrev pub get_rsvp : Bool → ℕ → Action Db RsvpResponse
get_rsvp down invitation = select_one down (find_rsvp invitation) rsvp_not_found

abbrev pub is_rsvp_of : ℕ → ℕ → RsvpResponse → Bool
is_rsvp_of id tenant r = r.id == id && r.tenant_id == tenant

unfoldable pub find_rsvp_by_id : ℕ → ℕ → Db → Option RsvpResponse
find_rsvp_by_id id tenant db = find_first (is_rsvp_of id tenant) db.rsvps

-- `GetByIDForTenant`
abbrev pub get_rsvp_by_id : Bool → ℕ → ℕ → Action Db RsvpResponse
get_rsvp_by_id down id tenant = select_one down (find_rsvp_by_id id tenant) rsvp_not_found

-- The SET list of `Update`.
unfoldable pub merge_rsvp : RsvpResponse → RsvpResponse → RsvpResponse
merge_rsvp new old = record old {
  status = new.status;
  attending_pax = new.attending_pax;
  adults = new.adults;
  children = new.children;
  menu_choice = new.menu_choice;
  allergies = new.allergies;
  accessibility_needs = new.accessibility_needs;
  transportation = new.transportation;
  notes = new.notes;
  edited_at = new.edited_at;
  edited_by = new.edited_by;
  updated_at = new.updated_at;
}

-- `Update`
unfoldable pub update_rsvp : Bool → RsvpResponse → Action Db (Unit {0})
update_rsvp down new = statement down (λ db.
    if any (is_rsvp_of new.id new.tenant_id) db.rsvps
    then (
      ok tt,
      record db { rsvps = update_if (is_rsvp_of new.id new.tenant_id) (merge_rsvp new) db.rsvps },
    )
    else (err rsvp_not_found, db))

-- What one row adds to the sum of `SumAttendingPax`.
abbrev pub pax_of : ℕ → RsvpResponse → ℤ
pax_of event r = if r.event_id == event && is_attending r.status then r.attending_pax else pos 0

-- `SumAttendingPax`
unfoldable pub sum_attending : ℕ → Db → ℤ
sum_attending event db = sum_of (pax_of event) db.rsvps
