-- ===== src/Rsvp/Tests.antt =====
-- Answers at a concrete store.
use guestbook.Rsvp.Officer.{update_by_officer, edit_by_officer}
use guestbook.Prelude.{
  String, pos, ◌≤ℤ◌, ◌≡◌, refl, true, false, some, any, find_first, update_if, sum_of, wrap_int,
  ◌+ℤ◌, ◌-ℤ◌, arith,
}
use guestbook.Action.{ok, err, event_at_capacity}
use guestbook.Store.{
  RsvpStatus, RsvpResponse, is_revoked, find_event, find_event_any, find_invitation_by_hash,
  update_invitation_status, log_with_user,
}
use guestbook.Samples.{quiet, gala, invitation_of, sample_db}
use guestbook.Rsvp.Repo.{
  RsvpRequest, with_texts, insert_rsvp, find_rsvp, sum_attending, update_rsvp, merge_rsvp,
  find_rsvp_by_id,
}
use guestbook.Rsvp.Service.{
  is_past, is_valid_submit_status, submitted_pax, validate_token, validate_deadline,
  validate_capacity, answer_invitation, record_answer, submit, first_answer,
}
use guestbook.Rsvp.Effect.{IsAnswered}
use guestbook.Rsvp.Capacity.{submit-within_capacity}
use guestbook.Rsvp.Gate.{submit_gate, submit_refused}
use guestbook.Rsvp.Record.{stored_answer, OneEach, submit_stored}

abbrev coming : RsvpRequest
coming = record {
  status = RsvpStatus.attending;
  attending_pax = pos 1;
  adults = pos 1;
  children = pos 0;
  menu_choice = "";
  allergies = "";
  accessibility_needs = "";
  transportation = "";
  notes = "";
}

abbrev two_coming : RsvpRequest
two_coming = record coming { attending_pax = pos 2 }

abbrev plain_token : String → String
plain_token s = s

-- The answer that Ana's submission stores.
abbrev answer_of_ana : RsvpResponse
answer_of_ana = first_answer quiet (invitation_of 31 11 21 "token-ana") "::1" coming

ana_found :
    find_invitation_by_hash (plain_token "token-ana") sample_db
    ≡ some (invitation_of 31 11 21 "token-ana")
unfolding find_invitation_by_hash find_first
ana_found = refl

gala_found : find_event 1 7 sample_db ≡ some gala
unfolding find_event find_first
gala_found = refl

gala_found_any : find_event_any 1 sample_db ≡ some gala
unfolding find_event_any find_first
gala_found_any = refl

ana_accepted : (submit plain_token quiet "token-ana" coming "::1" sample_db).0 ≡ ok answer_of_ana
unfolding submit validate_token validate_deadline validate_capacity answer_invitation record_answer
    insert_rsvp update_invitation_status find_invitation_by_hash find_event find_event_any find_rsvp
    sum_attending sum_of find_first any update_if wrap_int ◌+ℤ◌ ◌-ℤ◌ is_valid_submit_status
    first_answer with_texts
ana_accepted = refl

-- A fourth guest does not fit.
ana_refused :
    (submit plain_token quiet "token-ana" two_coming "::1" sample_db).0 ≡ err event_at_capacity
unfolding submit validate_token validate_deadline validate_capacity answer_invitation
    find_invitation_by_hash find_event find_event_any find_rsvp sum_attending sum_of find_first
    wrap_int ◌+ℤ◌ ◌-ℤ◌ is_valid_submit_status
ana_refused = refl

sample-IsAnswered : IsAnswered sample_db
unfolding any
sample-IsAnswered = record {
  ids = (refl, tt);
  one_each = (refl, tt);
  owned = ((λ e. (refl, refl), (λ e. (refl, refl), tt)), tt);
}

submit-within_capacity_example :
    sum_attending 1 (submit plain_token quiet "token-ana" coming "::1" sample_db).1 ≤ℤ pos 3
submit-within_capacity_example =
    submit-within_capacity plain_token quiet "token-ana" coming "::1" sample_db
      (invitation_of 31 11 21 "token-ana") gala (pos 3) answer_of_ana sample-IsAnswered ana_found
      gala_found refl refl (unfold sum_attending sum_of ◌+ℤ◌ in (ground arith, ground arith))
      (unfold find_rsvp find_first in (ground arith, ground arith)) (ground arith, ground arith)
      refl ana_accepted

submit_gate_example :
    (is_revoked (invitation_of 31 11 21 "token-ana").status ≡ false)
    × (is_past 100 (some 300) ≡ false)
    × (is_past 101 (some 400) ≡ false)
    × (is_valid_submit_status coming.status ≡ true)
    × (submitted_pax coming ≤ℤ pos 2)
submit_gate_example =
    submit_gate plain_token quiet "token-ana" coming "::1" sample_db
      (invitation_of 31 11 21 "token-ana") gala answer_of_ana ana_found gala_found_any ana_accepted

submit_stored_example :
    (stored_answer 31 (submit plain_token quiet "token-ana" coming "::1" sample_db).1
      ≡ some (RsvpStatus.attending, pos 1, pos 1, pos 0))
    × OneEach (submit plain_token quiet "token-ana" coming "::1" sample_db).1
submit_stored_example =
    submit_stored plain_token quiet "token-ana" coming "::1" sample_db
      (invitation_of 31 11 21 "token-ana") answer_of_ana sample-IsAnswered.one_each ana_found
      ana_accepted

submit_refused_example :
    (submit plain_token quiet "token-ana" two_coming "::1" sample_db).1 ≡ sample_db
submit_refused_example =
    submit_refused plain_token quiet "token-ana" two_coming "::1" sample_db event_at_capacity
      ana_refused

-- An officer raises an answer that says attending from two people to five, at an event for three.
abbrev five_coming : RsvpRequest
five_coming = record coming { attending_pax = pos 5; adults = pos 5 }

officer_over_capacity :
    sum_attending 1 (update_by_officer quiet 7 1 41 9 five_coming sample_db).1 ≡ pos 5
unfolding update_by_officer update_rsvp edit_by_officer with_texts merge_rsvp find_rsvp_by_id
    find_first any update_if sum_attending sum_of ◌+ℤ◌ log_with_user
officer_over_capacity = refl
