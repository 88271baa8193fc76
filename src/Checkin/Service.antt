-- ===== src/Checkin/Service.antt =====
-- The ways to a check-in, of internal/service/checkin_service.go: by scan, by search, by the guest.
-- The places where they send statements come before those of `performCheckin`.
use guestbook.Prelude.{
  ℕ, ◌==◌, ℤ, pos, String, is_empty, trim_space, Bool, true, false, not, Option, none, some,
  if◌then◌else◌,
}
use guestbook.Action.{
  Error, is_not_found, not_found, invalid_input, Result, ok, err, Action, Env, from, raise, gets,
  raise_if, ◌>>=◌, ◌>>◌,
}
use guestbook.Store.{
  CheckinMethod, CheckinStatus, Event, Guest, Invitation, Checkin, Db, get_guest, find_guest,
  get_event_guest, find_event_guest_by_id, find_invitation_by_hash,
}
use guestbook.Checkin.Repo.{CheckinRequest}
use guestbook.Checkin.Admission.{actor_of, record_failed, checked_pax, perform_checkin}

-- What `findGuestByToken` makes of the invitation that has the token: the roster entry, if the
-- invitation names one, has to be readable.
unfoldable pub is_entry_missing : Bool → ℕ → ℕ → Invitation → Db → Bool
is_entry_missing down tenant event i db = elim i.event_guest_id [
  | none ↦ false
  | some id ↦
      if down
      then true
      else elim (find_event_guest_by_id tenant event id db) [ none ↦ true | some _ ↦ false ]
]

-- `findGuestByToken`: a query that fails counts as one that finds nothing.
unfoldable pub find_guest_by_token :
    (String → String) → Env → ℕ → ℕ → String → Db → Result (Guest × Invitation)
unfolding is_entry_missing
find_guest_by_token sha256 v tenant event token db =
    elim (if v.down 0 then none else find_invitation_by_hash (sha256 token) db) [
      | none ↦ err not_found
      | some i ↦
          if not (i.event_id == event)
          then err invalid_input
          else if is_entry_missing (v.down 1) tenant event i db
          then err invalid_input
          else elim (if v.down 2 then none else find_guest tenant i.guest_id db) [
            | none ↦ err not_found
            | some g ↦ ok (g, i)
          ]
    ]

-- A search that finds nothing is recorded as a failed attempt; another error is passed on.
abbrev pub on_failure : Action Db Checkin → Error → Bool → Action Db Checkin
on_failure failed e true = failed
on_failure failed e false = raise e

-- The end of `ProcessQRScan`.
abbrev pub scan_result :
    Env → ℕ → ℕ → Option ℕ → CheckinRequest → Result (Guest × Invitation) → Action Db Checkin
scan_result v tenant event officer req (ok (g, i)) =
    perform_checkin (from 3 v) tenant event g.id (some i.id) officer req
scan_result v tenant event officer req (err e) =
    on_failure (record_failed (v.down 3) (from 3 v) tenant event officer req CheckinStatus.invalid)
      e (is_not_found e)

-- `ProcessQRScan`; `sha256` is `crypto.SHA256Hash`.
unfoldable pub process_qr_scan :
    (String → String) → Env → ℕ → ℕ → Option ℕ → CheckinRequest → Action Db Checkin
unfolding find_guest_by_token perform_checkin
process_qr_scan sha256 v tenant event officer req = do
  let token = trim_space req.token
  raise_if (is_empty token) invalid_input
  found ← gets (find_guest_by_token sha256 v tenant event token)
  scan_result v tenant event officer req found

-- What follows a search: a failed attempt is recorded if it found nothing.
abbrev pub or_record :
    {A : Type 0} → Action Db A → Action Db Checkin → (A → Action Db Checkin) → Action Db Checkin
or_record m failed k db =
    let (r, db') = m db in
    elim r [ ok a ↦ k a db' | err e ↦ on_failure failed e (is_not_found e) db' ]

-- `req.GuestID == nil || *req.GuestID == uuid.Nil`
abbrev pub is_nil : Option ℕ → Bool
is_nil none = true
is_nil (some id) = id == 0

-- `ProcessManualSearch`
unfoldable pub process_manual_search : Env → ℕ → ℕ → Option ℕ → CheckinRequest → Action Db Checkin
unfolding record_failed perform_checkin
process_manual_search v tenant event officer req = do
  raise_if (is_nil req.guest_id) invalid_input
  or_record (get_guest (v.down 0) tenant (actor_of req.guest_id))
      (record_failed (v.down 2) (from 2 v) tenant event officer req CheckinStatus.invalid)
      (λ g.
        or_record (get_event_guest (v.down 1) tenant event g.id)
          (record_failed (v.down 2) (from 2 v) tenant event officer req CheckinStatus.wrong_event)
          (λ entry. perform_checkin (from 2 v) tenant event g.id none officer req))

-- The switch of `ProcessCheckin`; a walk-in has a call of its own.
abbrev pub by_method : Action Db Checkin → Action Db Checkin → CheckinMethod → Action Db Checkin
by_method scan manual CheckinMethod.qr_scan = scan
by_method scan manual CheckinMethod.manual_search = manual
by_method scan manual _ = raise invalid_input

-- `ProcessCheckin`
unfoldable pub process_checkin :
    (String → String) → Env → ℕ → ℕ → Option ℕ → CheckinRequest → Action Db Checkin
unfolding process_qr_scan process_manual_search
process_checkin sha256 v tenant event officer req =
    by_method (process_qr_scan sha256 v tenant event officer req)
      (process_manual_search v tenant event officer req) req.method

-- The request that `ProcessSelfCheckin` makes.
abbrev pub self_request : ℤ → CheckinRequest
self_request pax = record {
  method = CheckinMethod.kiosk;
  token = "";
  guest_id = none;
  gate_id = none;
  device_id = "";
  actual_pax = pax;
  adults = pax;
  children = pos 0;
  override_reason = "";
  approved_by = none;
  notes = "Check-in mandiri dari laman undangan";
  latitude = pos 0;
  longitude = pos 0;
}

-- `ProcessSelfCheckin`; its pointers are those that its handler has resolved.
unfoldable pub process_self_checkin : Env → Event → Invitation → ℤ → Action Db Checkin
unfolding perform_checkin
process_self_checkin v event i pax = do
  raise_if (not (event.id == i.event_id)) invalid_input
  perform_checkin v event.tenant_id event.id i.guest_id (some i.id) none
      (self_request (checked_pax pax))
