-- ===== src/Store/Status.antt =====
-- The status texts of internal/domain/event.go, event_guest.go, invitation.go, rsvp.go and
-- checkin.go.
use guestbook.Prelude.{String, Bool, true, false, is_empty}

pub data EventStatus : Type 0 where
  draft published ongoing completed archived cancelled : EventStatus
  other : String → EventStatus

pub data EventGuestStatus : Type 0 where
  active cancelled : EventGuestStatus
  other : String → EventGuestStatus

pub data InvitationStatus : Type 0 where
  draft sent opened responded expired failed revoked : InvitationStatus
  other : String → InvitationStatus

pub data RsvpStatus : Type 0 where
  not_sent pending attending not_attending maybe waitlist cancelled no_response : RsvpStatus
  other : String → RsvpStatus

pub data CheckinMethod : Type 0 where
  qr_scan manual_search walk_in kiosk : CheckinMethod
  other : String → CheckinMethod

pub data CheckinStatus : Type 0 where
  success duplicate invalid revoked wrong_event expired : CheckinStatus
  other : String → CheckinStatus

-- `domain.IsValidEventStatus`
abbrev pub is_valid_event_status : EventStatus → Bool
is_valid_event_status (EventStatus.other _) = false
is_valid_event_status _ = true

-- `req.Status != ""`, negated
abbrev pub is_blank_event_status : EventStatus → Bool
is_blank_event_status (EventStatus.other s) = is_empty s
is_blank_event_status _ = false

-- `domain.IsValidRSVPStatus`
abbrev pub is_valid_rsvp_status : RsvpStatus → Bool
is_valid_rsvp_status (RsvpStatus.other _) = false
is_valid_rsvp_status _ = true

-- `== domain.RSVPStatusAttending`
abbrev pub is_attending : RsvpStatus → Bool
is_attending RsvpStatus.attending = true
is_attending _ = false

abbrev pub is_not_attending : RsvpStatus → Bool
is_not_attending RsvpStatus.not_attending = true
is_not_attending _ = false

-- `== domain.InvitationStatusRevoked`
abbrev pub is_revoked : InvitationStatus → Bool
is_revoked InvitationStatus.revoked = true
is_revoked _ = false

-- `= 'active'`
abbrev pub is_active : EventGuestStatus → Bool
is_active EventGuestStatus.active = true
is_active _ = false

-- `== domain.CheckinStatusSuccess`
abbrev pub is_success : CheckinStatus → Bool
is_success CheckinStatus.success = true
is_success _ = false
