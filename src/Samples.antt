-- ===== src/Samples.antt =====
-- A small store and its environment, for the tests: an event for three people, two guests of whom
-- one has answered for two, and a table with one seat.
use guestbook.Prelude.{ℕ, ◌+◌, pos, String, true, false, none, some, [], ◌∷◌}
use guestbook.Action.{Env}
use guestbook.Store.{
  EventStatus, EventGuestStatus, InvitationStatus, RsvpStatus, Event, Guest, EventGuest, Invitation,
  RsvpResponse, Table, Db, TenantStatus, Tenant, User, Plan,
}

-- No statement fails, the k-th reading of the clock is 100 + k.
abbrev pub quiet : Env
quiet = record { down = λ _. false; now = λ k. 100 + k; fresh = λ k. 1000 + k }

abbrev pub gala : Event
gala = record {
  id = 1;
  created_at = 1;
  updated_at = 1;
  deleted_at = none;
  tenant_id = 7;
  name = "Gala";
  type = "gala";
  description = none;
  cover_url = none;
  status = EventStatus.published;
  start_date = 500;
  end_date = none;
  rsvp_deadline = some 400;
  capacity = some (pos 3);
  target_invites = none;
  target_attendance = none;
  primary_location_id = none;
  dress_code = none;
  privacy_notice = none;
  guest_policy = none;
  settings = none;
  self_checkin_token = "door";
  created_by = 9;
}

abbrev pub guest_named : ℕ → String → Guest
guest_named id name = record {
  id = id;
  created_at = 1;
  updated_at = 1;
  deleted_at = none;
  tenant_id = 7;
  full_name = name;
  nickname = none;
  phone = none;
  email = none;
  address = none;
  city = none;
  country = none;
  language = "id";
  guest_type = "general";
  segment = none;
  institution = none;
  title = none;
  relationship = none;
  pic = none;
  accessibility_needs = none;
  dietary_restrictions = none;
  allergies = none;
  notes = none;
  consent_communication = true;
  consent_version = none;
  source = none;
  is_active = true;
  created_by = 9;
  updated_by = none;
}

abbrev pub entry_of : ℕ → ℕ → EventGuest
entry_of id guest = record {
  id = id;
  created_at = 1;
  updated_at = 1;
  deleted_at = none;
  tenant_id = 7;
  event_id = 1;
  guest_id = guest;
  status = EventGuestStatus.active;
  source = "manual";
  max_pax = pos 2;
  adults = pos 1;
  children = pos 0;
  plus_one_allowed = true;
  notes = none;
  created_by = 9;
}

abbrev pub invitation_of : ℕ → ℕ → ℕ → String → Invitation
invitation_of id guest entry hash = record {
  id = id;
  created_at = 1;
  updated_at = 1;
  deleted_at = none;
  tenant_id = 7;
  event_id = 1;
  guest_id = guest;
  event_guest_id = some entry;
  token = "";
  token_hash = hash;
  url = "";
  max_pax = pos 2;
  adults = pos 1;
  children = pos 0;
  plus_one_allowed = true;
  plus_one_required = false;
  status = InvitationStatus.sent;
  sent_at = some 2;
  failed_reason = none;
  opened_at = none;
  revoked_at = none;
  revoked_by = none;
  revoke_reason = none;
  expires_at = some 300;
  created_by = 9;
}

-- The answer of the second guest: two people.
abbrev pub answer_of_ben : RsvpResponse
answer_of_ben = record {
  id = 41;
  created_at = 3;
  updated_at = 3;
  tenant_id = 7;
  event_id = 1;
  invitation_id = 32;
  guest_id = 12;
  event_guest_id = some 22;
  status = RsvpStatus.attending;
  attending_pax = pos 2;
  adults = pos 2;
  children = pos 0;
  menu_choice = none;
  allergies = none;
  accessibility_needs = none;
  transportation = none;
  notes = none;
  responded_at = some 3;
  edited_at = none;
  edited_by = none;
  ip_address = none;
}

-- A table with one seat.
abbrev pub small_table : Table
small_table = record {
  id = 51;
  created_at = 1;
  updated_at = 1;
  deleted_at = none;
  tenant_id = 7;
  event_id = 1;
  zone_id = none;
  name = "A";
  capacity = pos 1;
  shape = "round";
  position_x = none;
  position_y = none;
  is_locked = false;
  accessibility = false;
  vip_only = false;
  notes = none;
}

-- A tenant in its trial, until 350.
abbrev pub small_tenant : Tenant
small_tenant = record {
  id = 7;
  created_at = 1;
  updated_at = 1;
  deleted_at = none;
  name = "Acara";
  slug = "acara";
  description = none;
  logo_url = none;
  primary_color = "#3B82F6";
  settings = none;
  status = TenantStatus.trial;
  trial_ends_at = some 350;
}

abbrev pub owner_user : User
owner_user = record {
  id = 9;
  created_at = 1;
  updated_at = 1;
  deleted_at = none;
  email = "owner@acara.id";
  password_hash = "secret";
  full_name = "Owner";
  phone = none;
  position = none;
  bio = none;
  avatar_url = none;
  email_verified_at = none;
  mfa_enabled = false;
  mfa_secret = none;
  status = "active";
}

-- A plan with one event.
abbrev pub starter_plan : Plan
starter_plan = record {
  id = 3;
  name = "starter";
  display_name = "Starter";
  billing_cycle = "monthly";
  price_idr = pos 99000;
  max_guests = some (pos 100);
  max_events = some (pos 1);
  max_team_members = none;
  max_campaigns_per_month = none;
  max_csv_import_rows = none;
  features = record {
    whatsapp_campaign = false;
    custom_template = false;
    webhook = false;
    advanced_reports = false;
    remove_branding = false;
    priority_support = false;
  };
  is_active = true;
  sort_order = pos 1;
  created_at = 1;
  updated_at = 1;
}

abbrev pub sample_db : Db
sample_db = record {
  events = gala ∷ [];
  guests = guest_named 11 "Ana" ∷ guest_named 12 "Ben" ∷ [];
  event_guests = entry_of 21 11 ∷ entry_of 22 12 ∷ [];
  invitations = invitation_of 31 11 21 "token-ana" ∷ invitation_of 32 12 22 "token-ben" ∷ [];
  rsvps = answer_of_ben ∷ [];
  tables = small_table ∷ [];
  seats = [];
  checkins = [];
  audit = [];
  tenants = small_tenant ∷ [];
  users = owner_user ∷ [];
  plans = starter_plan ∷ [];
  subscriptions = [];
  payments = [];
  usages = [];
  gifts = [];
}
