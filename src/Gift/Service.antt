-- ===== src/Gift/Service.antt =====
-- internal/service/guest_gift_service.go, but for the list.
use guestbook.Prelude.{
  ℕ, ◌==◌, ℤ, pos, ltb_ℤ, String, str_eq, is_empty, trim_space, Bool, true, false, not, ◌&&◌, ◌||◌,
  Option, none, some, if◌then◌else◌,
}
use guestbook.Action.{
  invalid_input, is_not_found, Result, ok, err, Action, Env, attempt, ignore, raise_if, ◌>>=◌, ◌>>◌,
}
use guestbook.Store.{is_active, GuestGift, Db, get_event_guest, log_with_user}
use guestbook.Gift.Repo.{get_gift, upsert_gift, delete_gift_rows}

pub record GuestGiftUpsertRequest : Type 0 where
  pub amount : Option ℤ
  pub gift_type : String
  pub notes : String

-- `IsValidGuestGiftType`
abbrev pub is_valid_gift_type : String → Bool
is_valid_gift_type t =
    str_eq t "cash" || (str_eq t "transfer" || (str_eq t "goods" || str_eq t "other"))

-- Whether a gift of the type has an amount.
abbrev pub is_money : String → Bool
is_money t = str_eq t "cash" || str_eq t "transfer"

-- `req.Amount != nil && *req.Amount < 1`
abbrev pub is_below_one : Option ℤ → Bool
is_below_one none = false
is_below_one (some a) = ltb_ℤ a (pos 1)

-- `req.Amount == nil`
abbrev pub is_missing : Option ℤ → Bool
is_missing none = true
is_missing (some _) = false

-- The trimmed type, cash if there is none.
unfoldable pub gift_type_of : GuestGiftUpsertRequest → String
gift_type_of req = let t = trim_space req.gift_type in if is_empty t then "cash" else t

-- The trimmed notes, if any.
unfoldable pub notes_of : GuestGiftUpsertRequest → Option String
notes_of req = let n = trim_space req.notes in if is_empty n then none else some n

-- The fields that `Upsert` sets on a gift that is new or there.
unfoldable pub filled : ℕ → ℕ → GuestGiftUpsertRequest → GuestGift → GuestGift
filled entry user req g = record g {
  event_guest_id = entry;
  amount = req.amount;
  gift_type = gift_type_of req;
  notes = notes_of req;
  recorded_by = some user;
  received_at = if g.received_at == 0 then g.created_at else g.received_at;
}

-- The gift that was not there: two calls of `NewBase`.
unfoldable pub new_gift : Env → ℕ → ℕ → ℕ → ℕ → GuestGift
new_gift v tenant event guest entry = record {
  id = v.fresh 0;
  created_at = v.now 0;
  updated_at = v.now 0;
  deleted_at = none;
  tenant_id = tenant;
  event_id = event;
  guest_id = guest;
  event_guest_id = entry;
  amount = none;
  gift_type = "";
  notes = none;
  received_at = v.now 1;
  recorded_by = none;
}

-- The gift to fill in and the action to log.
abbrev pub gift_or_new : Env → ℕ → ℕ → ℕ → ℕ → Result GuestGift → Action Db (GuestGift × String)
gift_or_new v tenant event guest entry (ok g) db =
    (ok (record g { updated_at = v.now 0 }, "update"), db)
gift_or_new v tenant event guest entry (err e) db =
    if is_not_found e then (ok (new_gift v tenant event guest entry, "create"), db) else (err e, db)

-- `Upsert` after its checks.
unfoldable pub store_gift : Env → ℕ → ℕ → ℕ → ℕ → GuestGiftUpsertRequest → ℕ → Action Db GuestGift
unfolding upsert_gift log_with_user
store_gift v tenant event guest user req entry = do
  found ← attempt (get_gift (v.down 1) tenant event guest)
  (g, action) ← gift_or_new v tenant event guest entry found
  let item = filled entry user req g
  upsert_gift (v.down 2) item
  ignore (log_with_user (v.down 3) user tenant action "guest_gift" item.id)
  get_gift (v.down 4) tenant event guest

-- `Upsert`
unfoldable pub upsert : Env → ℕ → ℕ → ℕ → ℕ → GuestGiftUpsertRequest → Action Db GuestGift
upsert v tenant event guest user req = do
  entry ← get_event_guest (v.down 0) tenant event guest
  raise_if (not (is_active entry.status)) invalid_input
  raise_if (not (is_valid_gift_type (gift_type_of req))) invalid_input
  raise_if (is_below_one req.amount) invalid_input
  raise_if (is_money (gift_type_of req) && is_missing req.amount) invalid_input
  store_gift v tenant event guest user req entry.id

-- `Delete`
unfoldable pub delete_gift : Env → ℕ → ℕ → ℕ → ℕ → Action Db (Unit {0})
unfolding delete_gift_rows log_with_user
delete_gift v tenant event guest user = do
  delete_gift_rows (v.down 0) (v.now 0) tenant event guest
  ignore (log_with_user (v.down 1) user tenant "delete" "guest_gift" guest)
