-- ===== src/Checkin/Tests.antt =====
-- Check-ins at a concrete store.
use guestbook.Prelude.{
  String, pos, ◌≡◌, ◌≢◌, refl, true, false, none, some, any, count_if, find_first, arith, [], ◌∷◌,
  trim_space,
}
use guestbook.Action.{ok}
use guestbook.Store.{
  CheckinMethod, Checkin, Db, find_event, find_event_guest, has_guest, log_with_user,
  InvitationStatus, find_event_guest_by_id, find_invitation_by_hash, find_guest,
}
use guestbook.Samples.{quiet, sample_db, invitation_of}
use guestbook.Checkin.Repo.{CheckinRequest, insert_checkin, is_checked_in, successes}
use guestbook.Checkin.Admission.{new_checkin, admit, perform_checkin}
use guestbook.Checkin.Service.{
  process_checkin, process_qr_scan, find_guest_by_token, is_entry_missing,
}
use guestbook.Checkin.Once.{Once}
use guestbook.Checkin.Histories.{Counted, Reach, Step, Reach-Once}
use guestbook.Checkin.Twice.{perform_checkin_accepted, perform_checkin-perform_checkin}

abbrev by_hand : CheckinRequest
by_hand = record {
  method = CheckinMethod.manual_search;
  token = "";
  guest_id = some 11;
  gate_id = none;
  device_id = "";
  actual_pax = pos 2;
  adults = pos 1;
  children = pos 0;
  override_reason = "";
  approved_by = none;
  notes = "";
  latitude = pos 0;
  longitude = pos 0;
}

abbrev plain_token : String → String
plain_token s = s

-- The check-in of Ana, who comes with one more person than announced.
abbrev ana_in : Checkin
ana_in = new_checkin quiet 7 1 11 21 none (some 9) by_hand

abbrev after_ana : Db
after_ana = (perform_checkin quiet 7 1 11 none (some 9) by_hand sample_db).1

ana_is_in : (perform_checkin quiet 7 1 11 none (some 9) by_hand sample_db).0 ≡ ok ana_in
unfolding perform_checkin admit insert_checkin is_checked_in successes count_if any find_first
    find_event find_event_guest has_guest log_with_user
ana_is_in = refl

sample-Once : Once sample_db
unfolding successes count_if
sample-Once tenant event guest = omega arith

Reach-Once_example :
    Once (process_checkin plain_token quiet 7 1 (some 9) by_hand sample_db).1
    × Counted (process_checkin plain_token quiet 7 1 (some 9) by_hand sample_db).1
Reach-Once_example =
    Reach-Once plain_token sample-Once tt
      (Reach.next Reach.here (Step.scan quiet 7 1 (some 9) by_hand))

perform_checkin_accepted_example :
    (find_event 1 7 sample_db ≢ none)
    × (find_event_guest 7 1 11 sample_db ≢ none)
    × (is_checked_in 7 1 11 sample_db ≡ false)
    × (is_checked_in 7 1 11 after_ana ≡ true)
perform_checkin_accepted_example =
    perform_checkin_accepted quiet 7 1 11 none (some 9) by_hand sample_db ana_in ana_is_in

perform_checkin-perform_checkin_example :
    (perform_checkin quiet 7 1 11 none none by_hand after_ana).0 ≢ ok ana_in
perform_checkin-perform_checkin_example =
    perform_checkin-perform_checkin quiet quiet 7 1 11 none none (some 9) none by_hand by_hand
      sample_db ana_in ana_in ana_is_in

abbrev by_scan : CheckinRequest
by_scan = record by_hand { method = CheckinMethod.qr_scan; token = "token-ana"; guest_id = none }

-- The store after the first invitation was revoked.
abbrev revoked_db : Db
revoked_db = record sample_db {
  invitations =
      record (invitation_of 31 11 21 "token-ana") { status = InvitationStatus.revoked } ∷ [];
}

-- The token of a revoked invitation admits its guest.
revoked_token_admits :
    is_checked_in 7 1 11 (process_checkin plain_token quiet 7 1 (some 9) by_scan revoked_db).1
    ≡ true
unfolding process_checkin process_qr_scan find_guest_by_token is_entry_missing perform_checkin admit
    insert_checkin new_checkin is_checked_in successes count_if any find_first find_event
    find_event_guest find_event_guest_by_id find_invitation_by_hash find_guest has_guest
    log_with_user trim_space
revoked_token_admits = refl
