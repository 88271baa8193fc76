-- ===== src/Gift/Answer.antt =====
-- What `Upsert` of internal/service/guest_gift_service.go answers.
use guestbook.Prelude.{
  find_first, ℕ, ◌≡◌, some, arith, Option-cases, inl, inr, refl, ap, sym, subst, ◌∙◌, true, false,
}
use guestbook.Action.{Env, ok}
use guestbook.Store.{is_active, GuestGift, EventGuest, Db, find_event_guest, log_with_user}
use guestbook.Gift.Repo.{is_gift_of, find_gift, upsert_gift}
use guestbook.Gift.Service.{GuestGiftUpsertRequest, filled, new_gift, store_gift, upsert}
use guestbook.Gift.Book.{Book, entry_of, Same, write, book_of, entry_if, upsert-Same}
use guestbook.Gift.Refine.{asked, keys_of}

module _ (v : Env) (tenant event guest user : ℕ) (req : GuestGiftUpsertRequest)
    (g : GuestGift) where
  -- The last statement reads what is stored.
  read_back :
      (entry : ℕ) (db : Db)
      → (store_gift v tenant event guest user req entry db).0 ≡ ok g
      → find_gift tenant event guest (store_gift v tenant event guest user req entry db).1 ≡ some g
  unfolding store_gift upsert_gift log_with_user
  read_back entry db h = elim (Option-cases (find_gift tenant event guest db)) [
    | inl new ↦ ground (arith, new, h)
    | inr (old, there) ↦ ground (arith, there, h)
  ]

  stored_one :
      (entry : ℕ) (db : Db)
      → (store_gift v tenant event guest user req entry db).0 ≡ ok g
      → (x : GuestGift) × ((x.tenant_id ≡ tenant) × (x.event_id ≡ event) × (x.guest_id ≡ guest))
        × (v.down 2 ≡ false)
        × ((store_gift v tenant event guest user req entry db).1.gifts
            ≡ (upsert_gift (v.down 2) (filled entry user req x) db).1.gifts)
  unfolding store_gift upsert_gift log_with_user new_gift
  stored_one entry db h = elim (Option-cases (find_gift tenant event guest db)) [
    | inl new ↦ (
      new_gift v tenant event guest entry,
      (refl, refl, refl),
      ground (arith, new, h),
      ground (arith, new, h),
    )
    | inr (old, there) ↦ (
      record old { updated_at = v.now 0 },
      keys_of tenant event guest db old there,
      ground (arith, there, h),
      ground (arith, there, h),
    )
  ]

  -- Only the gifts matter to the book.
  Same-gifts : (b : Book) (s t : Db) → s.gifts ≡ t.gifts → Same b (book_of s) → Same b (book_of t)
  unfolding find_gift
  Same-gifts b s t e h =
      subst (λ xs. Same b (λ n k m. entry_if (find_first (is_gift_of n k m) xs))) e h

  stored-Same :
      (entry : ℕ) (db : Db)
      → (store_gift v tenant event guest user req entry db).0 ≡ ok g
      → Same
          (write tenant event guest (some (asked entry user req)) (book_of db))
          (book_of (store_gift v tenant event guest user req entry db).1)
  unfolding filled
  stored-Same entry db h =
      let (x, keys, up, whole) = stored_one entry db h in
      let item : GuestGift = filled entry user req x in
      let b' = book_of (store_gift v tenant event guest user req entry db).1 in
      let one : Same
          (write x.tenant_id x.event_id x.guest_id (some (asked entry user req)) (book_of db)) b' =
        Same-gifts
          (write x.tenant_id x.event_id x.guest_id (some (asked entry user req)) (book_of db))
          (upsert_gift (v.down 2) item db).1 _ (sym whole) (upsert-Same (v.down 2) item db up) in
      subst (λ n. Same (write n event guest (some (asked entry user req)) (book_of db)) b') keys.0
        (subst (λ n. Same (write x.tenant_id n guest (some (asked entry user req)) (book_of db)) b')
          keys.1
          (subst
            (λ n.
              Same (write x.tenant_id x.event_id n (some (asked entry user req)) (book_of db)) b')
            keys.2 one))

  accepted :
      (db : Db)
      → (upsert v tenant event guest user req db).0 ≡ ok g
      → (eg : EventGuest) × (find_event_guest tenant event guest db ≡ some eg)
        × (is_active eg.status ≡ true)
        × (upsert v tenant event guest user req db
            ≡ store_gift v tenant event guest user req eg.id db)
  unfolding upsert
  accepted db h = elim (Option-cases (find_event_guest tenant event guest db)) [
    | inl gone ↦ absurd (ground (arith, gone, h))
    | inr (eg, there) ↦ (eg, there, ground (arith, there, h), ground (arith, there, h))
  ]

  -- A gift that is recorded without an error is read back: it is of a guest on the roster whose
  -- entry there is active, the gift that is answered is the one that a search for the guest then
  -- finds, it holds what the request says, and the other guests' gifts are as they were.
  pub upsert-find_gift :
      (db : Db)
      → (upsert v tenant event guest user req db).0 ≡ ok g
      → (eg : EventGuest) × (find_event_guest tenant event guest db ≡ some eg)
        × (is_active eg.status ≡ true)
        × (find_gift tenant event guest (upsert v tenant event guest user req db).1 ≡ some g)
        × (entry_of g ≡ asked eg.id user req)
        × Same
            (write tenant event guest (some (entry_of g)) (book_of db))
            (book_of (upsert v tenant event guest user req db).1)
  upsert-find_gift db h =
      let (eg, there, active, whole) = accepted db h in
      let done : (store_gift v tenant event guest user req eg.id db).0 ≡ ok g =
        sym (ap (λ r. r.0) whole) ∙ h in
      let back = read_back eg.id db done in
      let book = stored-Same eg.id db done in
      let own : entry_of g ≡ asked eg.id user req =
        entry_is eg.id db (store_gift v tenant event guest user req eg.id db).1 back
          (book tenant event guest) in
      (
        eg,
        there,
        active,
        ap (λ r. find_gift tenant event guest r.1) whole ∙ back,
        own,
        subst (λ s. Same (write tenant event guest (some (entry_of g)) (book_of db)) (book_of s))
            (sym (ap (λ r. r.1) whole))
            (subst
              (λ x.
                Same (write tenant event guest (some x) (book_of db))
                  (book_of (store_gift v tenant event guest user req eg.id db).1))
              (sym own) book),
      )
    where
      entry_is :
          (entry : ℕ) (db s : Db)
          → find_gift tenant event guest s ≡ some g
          → book_of s tenant event guest
            ≡ write tenant event guest (some (asked entry user req)) (book_of db) tenant event guest
          → entry_of g ≡ asked entry user req
      entry_is entry db s back h = ground (arith, back, h)
