-- ===== src/Seating/Tests.antt =====
-- Seating at concrete stores.
use guestbook.Prelude.{◌+◌, ◌≡◌, refl, none, any, count_if, find_first, length, arith}
use guestbook.Action.{ok}
use guestbook.Store.{find_guest, find_event_guest, has_guest}
use guestbook.Samples.{quiet, sample_db}
use guestbook.Seating.Repo.{
  occupancy_of, roster, upsert_seat, find_table, find_seat, is_seat_in_event,
}
use guestbook.Seating.Service.{AssignGuestRequest, assign_guest, is_vip}
use guestbook.Seating.Auto.{AutoAssigned, auto_assign}
use guestbook.Seating.Capacity.{IsSeated}
use guestbook.Seating.AutoTotal.{auto_assign_total}
use guestbook.Seating.Steps.{Reach, Step, Reach-IsSeated}

abbrev seat_ana : AssignGuestRequest
seat_ana = record { guest_id = 11; seat_number = none }

abbrev seat_ben : AssignGuestRequest
seat_ben = record { guest_id = 12; seat_number = none }

sample-IsSeated : IsSeated sample_db
unfolding occupancy_of count_if any
sample-IsSeated = record { fits = (λ live. ground arith, tt); keyed = (refl, tt) }

-- The one seat is given, and not given again.
seated_once :
    occupancy_of 51
      (assign_guest quiet 7 1 51 seat_ben 9
        (assign_guest quiet 7 1 51 seat_ana 9 sample_db).1).1.seats
    ≡ 1
unfolding assign_guest occupancy_of count_if any find_first upsert_seat find_table find_seat
    is_seat_in_event find_guest find_event_guest has_guest is_vip
seated_once = refl

Reach-IsSeated_example :
    IsSeated
      (assign_guest quiet 7 1 51 seat_ben 9 (assign_guest quiet 7 1 51 seat_ana 9 sample_db).1).1
Reach-IsSeated_example = Reach-IsSeated sample-IsSeated (
    Reach.next (Reach.next Reach.here (Step.assign quiet 7 1 51 seat_ana 9))
      (Step.assign quiet 7 1 51 seat_ben 9))

auto_assign_total_example :
    (r : AutoAssigned) × ((auto_assign quiet 7 1 9 sample_db).0 ≡ ok r)
    × (r.assigned + r.skipped ≡ length (roster 7 1 sample_db))
auto_assign_total_example = auto_assign_total quiet 7 1 9 sample_db refl refl refl
