-- ===== src/Store/Queries.antt =====
-- The store, and the queries that several services share: internal/repository/event_repository.go,
-- event_guest_repository.go, guest_repository.go and invitation_repository.go, and
-- internal/audit/service.go.
use guestbook.Prelude.{
  ℕ, ◌==◌, ◌≡◌, refl, arith, String, str_eq, Bool, true, false, ◌&&◌, Option, none, some, List, ◌∷◌,
  if◌then◌else◌, find_first, any, update_if,
}
use guestbook.Action.{
  AuditLog, Error, event_not_found, not_found, invitation_not_found, ok, err, Action, statement,
  or_raise, modify,
}
use guestbook.Store.Status.{InvitationStatus}
use guestbook.Store.Rows.{
  Event, Guest, EventGuest, Invitation, RsvpResponse, Table, SeatAssignment, Checkin,
  CredentialUsage, GuestGift,
}
use guestbook.Store.Accounts.{Tenant, User, Plan, Subscription, Payment}

pub record Db : Type 0 where
  pub events : List Event
  pub guests : List Guest
  pub event_guests : List EventGuest
  pub invitations : List Invitation
  pub rsvps : List RsvpResponse
  pub tables : List Table
  pub seats : List SeatAssignment
  pub checkins : List Checkin
  pub audit : List AuditLog
  pub tenants : List Tenant
  pub users : List User
  pub plans : List Plan
  pub subscriptions : List Subscription
  pub payments : List Payment
  pub usages : List CredentialUsage
  pub gifts : List GuestGift

-- `deleted_at IS NULL`
abbrev pub is_null : Option ℕ → Bool
is_null none = true
is_null (some _) = false

-- `SELECT ... LIMIT 1`: the first row, or the repository's error.
abbrev pub select_one : {A : Type 0} → Bool → (Db → Option A) → Error → Action Db A
select_one down f e = statement down (λ db. or_raise (f db) e db)

pub select_one_read_only :
    {A : Type 0} (down : Bool) (f : Db → Option A) (e : Error) (db : Db)
    → (select_one down f e db).1 ≡ db
select_one_read_only true f e db = refl
select_one_read_only false f e db = ground arith

-- What a query returned.
pub select_one_is :
    {A : Type 0} (down : Bool) (f : Db → Option A) (e : Error) (db : Db) (a : A)
    → (select_one down f e db).0 ≡ ok a
    → f db ≡ some a
select_one_is down f e db a h = ground arith

abbrev pub is_event_of : ℕ → ℕ → Event → Bool
is_event_of id tenant e = e.id == id && (e.tenant_id == tenant && is_null e.deleted_at)

unfoldable pub find_event : ℕ → ℕ → Db → Option Event
find_event id tenant db = find_first (is_event_of id tenant) db.events

unfoldable pub find_event_any : ℕ → Db → Option Event
find_event_any id db = find_first (λ e. e.id == id && is_null e.deleted_at) db.events

-- `EventRepository.GetByIDForTenant`
abbrev pub get_event : Bool → ℕ → ℕ → Action Db Event
get_event down id tenant = select_one down (find_event id tenant) event_not_found

-- `EventRepository.GetByID`
abbrev pub get_event_any : Bool → ℕ → Action Db Event
get_event_any down id = select_one down (find_event_any id) event_not_found

unfoldable pub find_guest : ℕ → ℕ → Db → Option Guest
find_guest tenant id db =
    find_first (λ g. g.id == id && (g.tenant_id == tenant && is_null g.deleted_at)) db.guests

-- `GuestRepository.GetByIDForTenant`
abbrev pub get_guest : Bool → ℕ → ℕ → Action Db Guest
get_guest down tenant id = select_one down (find_guest tenant id) not_found

-- The join of `eventGuestSelect`: the roster row's guest exists in the same tenant.
unfoldable pub has_guest : Db → EventGuest → Bool
has_guest db eg = any (λ g. g.id == eg.guest_id && g.tenant_id == eg.tenant_id) db.guests

unfoldable pub find_event_guest : ℕ → ℕ → ℕ → Db → Option EventGuest
find_event_guest tenant event guest db =
    find_first
      (λ eg.
        eg.tenant_id == tenant
        && (eg.event_id == event
            && (eg.guest_id == guest && (is_null eg.deleted_at && has_guest db eg))))
      db.event_guests

-- `EventGuestRepository.GetByEventAndGuest`
abbrev pub get_event_guest : Bool → ℕ → ℕ → ℕ → Action Db EventGuest
get_event_guest down tenant event guest =
    select_one down (find_event_guest tenant event guest) not_found

unfoldable pub find_event_guest_by_id : ℕ → ℕ → ℕ → Db → Option EventGuest
find_event_guest_by_id tenant event id db =
    find_first
      (λ eg.
        eg.id == id
        && (eg.tenant_id == tenant
            && (eg.event_id == event && (is_null eg.deleted_at && has_guest db eg))))
      db.event_guests

-- `EventGuestRepository.GetByID`
abbrev pub get_event_guest_by_id : Bool → ℕ → ℕ → ℕ → Action Db EventGuest
get_event_guest_by_id down tenant event id =
    select_one down (find_event_guest_by_id tenant event id) not_found

unfoldable pub find_invitation_by_hash : String → Db → Option Invitation
find_invitation_by_hash hash db =
    find_first (λ i. str_eq i.token_hash hash && is_null i.deleted_at) db.invitations

-- `InvitationRepository.GetByTokenHash`
abbrev pub get_invitation_by_hash : Bool → String → Action Db Invitation
get_invitation_by_hash down hash =
    select_one down (find_invitation_by_hash hash) invitation_not_found

unfoldable pub find_invitation : ℕ → ℕ → Db → Option Invitation
find_invitation event guest db =
    find_first (λ i. i.event_id == event && (i.guest_id == guest && is_null i.deleted_at))
      db.invitations

-- `InvitationRepository.GetByEventAndGuest`; an index allows one such row, so its order is idle.
abbrev pub get_invitation : Bool → ℕ → ℕ → Action Db Invitation
get_invitation down event guest = select_one down (find_invitation event guest) invitation_not_found

abbrev pub is_invitation_of : ℕ → ℕ → Invitation → Bool
is_invitation_of id tenant i = i.id == id && (i.tenant_id == tenant && is_null i.deleted_at)

-- `InvitationRepository.UpdateStatus`; `now` is the database's clock.
unfoldable pub update_invitation_status : Bool → ℕ → ℕ → ℕ → InvitationStatus → Action Db (Unit {0})
update_invitation_status down now id tenant status = statement down (λ db.
    if any (is_invitation_of id tenant) db.invitations
    then (
      ok tt,
      record db {
        invitations =
            update_if (is_invitation_of id tenant)
              (λ i. record i { status = status; updated_at = now }) db.invitations;
      },
    )
    else (err invitation_not_found, db))

-- `audit.Service.LogWithUser`
unfoldable pub log_with_user : Bool → ℕ → ℕ → String → String → ℕ → Action Db (Unit {0})
log_with_user down user tenant action entity id = statement down (
    modify (λ db. record db {
      audit =
          record {
            user_id = user;
            tenant_id = tenant;
            action = action;
            entity_type = entity;
            entity_id = id;
          }
          ∷ db.audit;
    }))
