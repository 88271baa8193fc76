-- ===== src/Gift/Repo.antt =====
-- internal/repository/guest_gift_repository.go, but for the list.
use guestbook.Prelude.{
  ℕ, ◌==◌, Bool, ◌&&◌, Option, none, some, ◌∷◌, if◌then◌else◌, any, find_first, update_if,
}
use guestbook.Action.{not_found, ok, err, Action, modify, statement}
use guestbook.Store.{GuestGift, Db, is_null, select_one}

abbrev pub is_gift_of : ℕ → ℕ → ℕ → GuestGift → Bool
is_gift_of tenant event guest g =
    g.tenant_id == tenant && (g.event_id == event && (g.guest_id == guest && is_null g.deleted_at))

unfoldable pub find_gift : ℕ → ℕ → ℕ → Db → Option GuestGift
find_gift tenant event guest db = find_first (is_gift_of tenant event guest) db.gifts

-- `GetByEventAndGuest`; an index allows one such row.
abbrev pub get_gift : Bool → ℕ → ℕ → ℕ → Action Db GuestGift
get_gift down tenant event guest = select_one down (find_gift tenant event guest) not_found

-- `ON CONFLICT (tenant_id, event_id, guest_id) WHERE deleted_at IS NULL DO UPDATE SET`
abbrev pub overwritten : GuestGift → GuestGift → GuestGift
overwritten item g = record g {
  event_guest_id = item.event_guest_id;
  amount = item.amount;
  gift_type = item.gift_type;
  notes = item.notes;
  received_at = item.received_at;
  recorded_by = item.recorded_by;
  updated_at = item.updated_at;
  deleted_at = none;
}

-- `Upsert`
unfoldable pub upsert_gift : Bool → GuestGift → Action Db (Unit {0})
upsert_gift down item = statement down (
    modify (λ db. record db {
      gifts =
          if any (is_gift_of item.tenant_id item.event_id item.guest_id) db.gifts
          then update_if (is_gift_of item.tenant_id item.event_id item.guest_id) (overwritten item)
              db.gifts
          else record item { deleted_at = none } ∷ db.gifts;
    }))

-- `Delete`; no row is an error.
unfoldable pub delete_gift_rows : Bool → ℕ → ℕ → ℕ → ℕ → Action Db (Unit {0})
delete_gift_rows down now tenant event guest = statement down (λ db.
    if any (is_gift_of tenant event guest) db.gifts
    then (
      ok tt,
      record db {
        gifts =
            update_if (is_gift_of tenant event guest)
              (λ g. record g { deleted_at = some now; updated_at = now }) db.gifts;
      },
    )
    else (err not_found, db))
