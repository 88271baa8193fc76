-- ===== src/Checkin/Repo.antt =====
-- internal/repository/checkin_repository.go, the two inserts of guest_repository.go and
-- event_guest_repository.go, `NewGuest` of internal/domain/guest.go, and the requests of
-- internal/domain/checkin.go and guest.go.
use guestbook.Prelude.{
  ℕ, ltb, ◌==◌, ℤ, String, is_empty, opt_text, Bool, true, ◌&&◌, Option, none, some, ◌∷◌,
  if◌then◌else◌, count_if,
}
use guestbook.Action.{Action, statement, modify}
use guestbook.Store.{CheckinMethod, is_success, Guest, EventGuest, Checkin, Db, is_null}

pub record CheckinRequest : Type 0 where
  pub method : CheckinMethod
  pub token : String
  pub guest_id : Option ℕ
  pub gate_id : Option ℕ
  pub device_id : String
  pub actual_pax : ℤ
  pub adults : ℤ
  pub children : ℤ
  pub override_reason : String
  pub approved_by : Option ℕ
  pub notes : String
  pub latitude : ℤ
  pub longitude : ℤ

pub record WalkinRequest : Type 0 where
  pub full_name : String
  pub phone : String
  pub email : String
  pub guest_type : String
  pub segment : String
  pub actual_pax : ℤ
  pub adults : ℤ
  pub children : ℤ
  pub override_reason : String
  pub approved_by : Option ℕ
  pub notes : String

pub record GuestCreateRequest : Type 0 where
  pub full_name : String
  pub nickname : String
  pub phone : String
  pub email : String
  pub address : String
  pub city : String
  pub country : String
  pub language : String
  pub guest_type : String
  pub segment : String
  pub institution : String
  pub title : String
  pub relationship : String
  pub pic : String
  pub accessibility_needs : String
  pub dietary_restrictions : String
  pub allergies : String
  pub notes : String
  pub consent_communication : Bool

-- `NewGuest`, with the identifier and the time of its `NewBase`.
unfoldable pub new_guest : ℕ → ℕ → ℕ → ℕ → GuestCreateRequest → Guest
new_guest fresh now tenant created_by req = record {
  id = fresh;
  created_at = now;
  updated_at = now;
  deleted_at = none;
  tenant_id = tenant;
  full_name = req.full_name;
  nickname = opt_text req.nickname;
  phone = opt_text req.phone;
  email = opt_text req.email;
  address = opt_text req.address;
  city = opt_text req.city;
  country = some (if is_empty req.country then "Indonesia" else req.country);
  language = if is_empty req.language then "id" else req.language;
  guest_type = req.guest_type;
  segment = opt_text req.segment;
  institution = opt_text req.institution;
  title = opt_text req.title;
  relationship = opt_text req.relationship;
  pic = opt_text req.pic;
  accessibility_needs = opt_text req.accessibility_needs;
  dietary_restrictions = opt_text req.dietary_restrictions;
  allergies = opt_text req.allergies;
  notes = opt_text req.notes;
  consent_communication = req.consent_communication;
  consent_version = none;
  source = some "manual";
  is_active = true;
  created_by = created_by;
  updated_by = none;
}

-- `GuestRepository.Create`
unfoldable pub insert_guest : Bool → Guest → Action Db (Unit {0})
insert_guest down guest = statement down (modify (λ db. record db { guests = guest ∷ db.guests }))

-- `EventGuestRepository.Create`
unfoldable pub insert_event_guest : Bool → EventGuest → Action Db (Unit {0})
insert_event_guest down eg =
    statement down (modify (λ db. record db { event_guests = eg ∷ db.event_guests }))

-- `CheckinRepository.Create`
unfoldable pub insert_checkin : Bool → Checkin → Action Db (Unit {0})
insert_checkin down c = statement down (modify (λ db. record db { checkins = c ∷ db.checkins }))

abbrev pub is_success_of : ℕ → ℕ → ℕ → Checkin → Bool
is_success_of tenant event guest c =
    c.tenant_id == tenant
    && (c.event_id == event
        && (c.guest_id == guest && (is_null c.deleted_at && is_success c.status)))

-- The COUNT of `IsCheckedIn`.
unfoldable pub successes : ℕ → ℕ → ℕ → Db → ℕ
successes tenant event guest db = count_if (is_success_of tenant event guest) db.checkins

-- `IsCheckedIn`
unfoldable pub is_checked_in : ℕ → ℕ → ℕ → Db → Bool
unfolding successes
is_checked_in tenant event guest db = ltb 0 (successes tenant event guest db)
