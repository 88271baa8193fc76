-- ===== src/Store/Rows.antt =====
-- The structs of internal/domain: event.go, guest.go, event_guest.go, invitation.go, rsvp.go,
-- seating.go and checkin.go, with the fields of `Base` and `TenantBase` among their own.
use guestbook.Prelude.{ℕ, ℤ, String, Bool, Option}
use guestbook.Store.Status.{
  EventStatus, EventGuestStatus, InvitationStatus, RsvpStatus, CheckinMethod, CheckinStatus,
}

pub record Event : Type 0 where
  pub id : ℕ
  pub created_at : ℕ
  pub updated_at : ℕ
  pub deleted_at : Option ℕ
  pub tenant_id : ℕ
  pub name : String
  pub type : String
  pub description : Option String
  pub cover_url : Option String
  pub status : EventStatus
  pub start_date : ℕ
  pub end_date : Option ℕ
  pub rsvp_deadline : Option ℕ
  pub capacity : Option ℤ
  pub target_invites : Option ℤ
  pub target_attendance : Option ℤ
  pub primary_location_id : Option ℕ
  pub dress_code : Option String
  pub privacy_notice : Option String
  pub guest_policy : Option String
  pub settings : Option String
  pub self_checkin_token : String
  pub created_by : ℕ

pub record Guest : Type 0 where
  pub id : ℕ
  pub created_at : ℕ
  pub updated_at : ℕ
  pub deleted_at : Option ℕ
  pub tenant_id : ℕ
  pub full_name : String
  pub nickname : Option String
  pub phone : Option String
  pub email : Option String
  pub address : Option String
  pub city : Option String
  pub country : Option String
  pub language : String
  pub guest_type : String
  pub segment : Option String
  pub institution : Option String
  pub title : Option String
  pub relationship : Option String
  pub pic : Option String
  pub accessibility_needs : Option String
  pub dietary_restrictions : Option String
  pub allergies : Option String
  pub notes : Option String
  pub consent_communication : Bool
  pub consent_version : Option String
  pub source : Option String
  pub is_active : Bool
  pub created_by : ℕ
  pub updated_by : Option ℕ

pub record EventGuest : Type 0 where
  pub id : ℕ
  pub created_at : ℕ
  pub updated_at : ℕ
  pub deleted_at : Option ℕ
  pub tenant_id : ℕ
  pub event_id : ℕ
  pub guest_id : ℕ
  pub status : EventGuestStatus
  pub source : String
  pub max_pax : ℤ
  pub adults : ℤ
  pub children : ℤ
  pub plus_one_allowed : Bool
  pub notes : Option String
  pub created_by : ℕ

pub record Invitation : Type 0 where
  pub id : ℕ
  pub created_at : ℕ
  pub updated_at : ℕ
  pub deleted_at : Option ℕ
  pub tenant_id : ℕ
  pub event_id : ℕ
  pub guest_id : ℕ
  pub event_guest_id : Option ℕ
  pub token : String
  pub token_hash : String
  pub url : String
  pub max_pax : ℤ
  pub adults : ℤ
  pub children : ℤ
  pub plus_one_allowed : Bool
  pub plus_one_required : Bool
  pub status : InvitationStatus
  pub sent_at : Option ℕ
  pub failed_reason : Option String
  pub opened_at : Option ℕ
  pub revoked_at : Option ℕ
  pub revoked_by : Option ℕ
  pub revoke_reason : Option String
  pub expires_at : Option ℕ
  pub created_by : ℕ

pub record RsvpResponse : Type 0 where
  pub id : ℕ
  pub created_at : ℕ
  pub updated_at : ℕ
  pub tenant_id : ℕ
  pub event_id : ℕ
  pub invitation_id : ℕ
  pub guest_id : ℕ
  pub event_guest_id : Option ℕ
  pub status : RsvpStatus
  pub attending_pax : ℤ
  pub adults : ℤ
  pub children : ℤ
  pub menu_choice : Option String
  pub allergies : Option String
  pub accessibility_needs : Option String
  pub transportation : Option String
  pub notes : Option String
  pub responded_at : Option ℕ
  pub edited_at : Option ℕ
  pub edited_by : Option ℕ
  pub ip_address : Option String

pub record Table : Type 0 where
  pub id : ℕ
  pub created_at : ℕ
  pub updated_at : ℕ
  pub deleted_at : Option ℕ
  pub tenant_id : ℕ
  pub event_id : ℕ
  pub zone_id : Option ℕ
  pub name : String
  pub capacity : ℤ
  pub shape : String
  pub position_x : Option ℤ
  pub position_y : Option ℤ
  pub is_locked : Bool
  pub accessibility : Bool
  pub vip_only : Bool
  pub notes : Option String

pub record SeatAssignment : Type 0 where
  pub table_id : ℕ
  pub guest_id : ℕ
  pub event_guest_id : Option ℕ
  pub seat_number : Option ℤ
  pub assigned_by : ℕ
  pub assigned_at : ℕ

pub record Checkin : Type 0 where
  pub id : ℕ
  pub created_at : ℕ
  pub updated_at : ℕ
  pub deleted_at : Option ℕ
  pub tenant_id : ℕ
  pub event_id : ℕ
  pub session_id : Option ℕ
  pub guest_id : ℕ
  pub event_guest_id : Option ℕ
  pub invitation_id : Option ℕ
  pub credential_id : Option ℕ
  pub method : CheckinMethod
  pub status : CheckinStatus
  pub device_id : Option String
  pub gate_id : Option ℕ
  pub officer_id : Option ℕ
  pub actual_pax : ℤ
  pub adults : ℤ
  pub children : ℤ
  pub override_reason : Option String
  pub approved_by : Option ℕ
  pub ip_address : Option String
  pub latitude : Option ℤ
  pub longitude : Option ℤ
  pub notes : Option String
  pub offline_synced : Bool

pub record CredentialUsage : Type 0 where
  pub id : ℕ
  pub created_at : ℕ
  pub invitation_id : ℕ
  pub event_id : ℕ
  pub guest_id : ℕ
  pub type : String
  pub ip_address : Option String

pub record GuestGift : Type 0 where
  pub id : ℕ
  pub created_at : ℕ
  pub updated_at : ℕ
  pub deleted_at : Option ℕ
  pub tenant_id : ℕ
  pub event_id : ℕ
  pub guest_id : ℕ
  pub event_guest_id : ℕ
  pub amount : Option ℤ
  pub gift_type : String
  pub notes : Option String
  pub received_at : ℕ
  pub recorded_by : Option ℕ
