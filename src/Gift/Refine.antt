-- ===== src/Gift/Refine.antt =====
-- The calls of internal/service/guest_gift_service.go are those of a book of gifts.
use guestbook.Prelude.{
  find_first-passes, ◌||◌, ℕ, ◌≡◌, refl, sym, subst, ap, ◌∙◌, ◌⊎◌, inl, inr, Bool, true, not, ◌&&◌,
  Option, none, some, List, [], ◌∷◌, arith, find_first, Bool-cases, Option-cases,
}
use guestbook.Action.{Env, Result-cases}
use guestbook.Store.{is_active, EventGuest, GuestGift, Db, find_event_guest, log_with_user}
use guestbook.Gift.Repo.{is_gift_of, find_gift, upsert_gift, delete_gift_rows}
use guestbook.Gift.Service.{
  GuestGiftUpsertRequest, is_valid_gift_type, is_money, is_below_one, is_missing, gift_type_of,
  notes_of, filled, new_gift, store_gift, upsert, delete_gift,
}
use guestbook.Gift.Book.{
  Entry, IsEntry, Book, write, Same, BookStep, kept, changed, entry_if, book_of, delete-book,
  upsert-book,
}

pub data Call : Type 0 where
  recording : ℕ → ℕ → ℕ → ℕ → GuestGiftUpsertRequest → Call
  removing : ℕ → ℕ → ℕ → ℕ → Call

pub record Request : Type 0 where
  pub env : Env
  pub call : Call

unfoldable pub perform : Env → Call → Db → Db
perform v (recording tenant event guest user req) db = (upsert v tenant event guest user req db).1
perform v (removing tenant event guest user) db = (delete_gift v tenant event guest user db).1

unfoldable pub serve_all : List Request → Db → Db
serve_all [] db = db
serve_all (r ∷ rs) db = serve_all rs (perform r.env r.call db)

-- The entry that a request asks for.
abbrev pub asked : ℕ → ℕ → GuestGiftUpsertRequest → Entry
asked entry user req = record {
  event_guest_id = entry;
  amount = req.amount;
  gift_type = gift_type_of req;
  notes = notes_of req;
  recorded_by = some user;
}

-- What a call may make of the entry of its guest.
abbrev pub Allows : Call → Option Entry → Type 0
Allows (recording tenant event guest user req) x =
    (entry : ℕ) × (x ≡ some (asked entry user req)) × IsEntry (asked entry user req)
Allows (removing tenant event guest user) x = x ≡ none

abbrev pub CallStep : Call → Book → Book → Type 0
CallStep (recording tenant event guest user req) b b' =
    BookStep (Allows (recording tenant event guest user req)) tenant event guest b b'
CallStep (removing tenant event guest user) b b' =
    BookStep (Allows (removing tenant event guest user)) tenant event guest b b'

-- A sequence of steps, one for each call.
unfoldable pub BookSteps : List Request → Book → Book → Type 0
BookSteps [] b b' = Same b b'
BookSteps (r ∷ rs) b b' = (m : Book) × CallStep r.call b m × BookSteps rs m b'

-- Only the gifts matter to the book.
BookStep-gifts :
    (A : Option Entry → Type 0) (tenant event guest : ℕ) (b : Book) (s t : Db)
    → s.gifts ≡ t.gifts
    → BookStep A tenant event guest b (book_of s)
    → BookStep A tenant event guest b (book_of t)
unfolding find_gift
BookStep-gifts A tenant event guest b s t e h =
    subst
      (λ xs. BookStep A tenant event guest b (λ n k g. entry_if (find_first (is_gift_of n k g) xs)))
      e h

-- A step at keys that are equal, of which more is allowed.
widened :
    (A B : Option Entry → Type 0) (t e g t' e' g' : ℕ) (b b' : Book)
    → (t ≡ t') × (e ≡ e') × (g ≡ g')
    → ((x : Option Entry) → A x → B x)
    → BookStep A t e g b b'
    → BookStep B t' e' g' b b'
widened A B t e g t' e' g' b b' keys wider (kept same) = kept same
widened A B t e g t' e' g' b b' keys wider (changed x allowed same) = changed x (wider x allowed) (
    subst (λ n. Same (write n e' g' x b) b') keys.0
      (subst (λ n. Same (write t n g' x b) b') keys.1
        (subst (λ n. Same (write t e n x b) b') keys.2 same)))

pub keys_of :
    (tenant event guest : ℕ) (db : Db) (g : GuestGift)
    → find_gift tenant event guest db ≡ some g
    → (g.tenant_id ≡ tenant) × (g.event_id ≡ event) × (g.guest_id ≡ guest)
unfolding find_gift
keys_of tenant event guest db g there =
    let passes = find_first-passes (is_gift_of tenant event guest) db.gifts g there in
    (ground (arith, passes), ground (arith, passes), ground (arith, passes))

module _ (v : Env) (tenant event guest user : ℕ) (req : GuestGiftUpsertRequest) where
  -- What the rest of `Upsert` writes, and what it answers.
  pub stored :
      (entry : ℕ) (db : Db)
      → ((store_gift v tenant event guest user req entry db).1.gifts ≡ db.gifts)
        ⊎ ((g : GuestGift) × (g.tenant_id ≡ tenant)
            × (g.event_id ≡ event)
            × (g.guest_id ≡ guest)
            × ((store_gift v tenant event guest user req entry db).1.gifts
                ≡ (upsert_gift (v.down 2) (filled entry user req g) db).1.gifts))
  unfolding store_gift upsert_gift log_with_user new_gift
  stored entry db = elim (Bool-cases (v.down 1 || v.down 2)) [
    | inl lost ↦ elim (Option-cases (find_gift tenant event guest db)) [
      | inl new ↦ inl (ground (arith, lost, new))
      | inr (g, there) ↦ inl (ground (arith, lost, there))
    ]
    | inr good ↦ elim (Option-cases (find_gift tenant event guest db)) [
      | inl new ↦
          inr (new_gift v tenant event guest entry, refl, refl, refl, ground (arith, good, new))
      | inr (g, there) ↦
          let (one, two, three) = keys_of tenant event guest db g there in
          inr (record g { updated_at = v.now 0 }, one, two, three, ground (arith, good, there))
    ]
  ]

  abbrev pub valid_request : Bool
  valid_request =
      is_valid_gift_type (gift_type_of req)
      && (not (is_below_one req.amount)
          && not (is_money (gift_type_of req) && is_missing req.amount))

  -- `Upsert` stops at a check, or goes on with a valid request.
  pub checked :
      (db : Db)
      → ((upsert v tenant event guest user req db).1 ≡ db)
        ⊎ ((eg : EventGuest) × (valid_request ≡ true)
            × (upsert v tenant event guest user req db
                ≡ store_gift v tenant event guest user req eg.id db))
  unfolding upsert
  checked db = elim (Option-cases (find_event_guest tenant event guest db)) [
    | inl gone ↦ inl (ground (arith, gone))
    | inr (eg, there) ↦
        elim (Bool-cases (not (v.down 0) && (is_active eg.status && valid_request))) [
          | inr bad ↦ inl (ground (arith, there, bad))
          | inl good ↦ inr (eg, ground (arith, good), ground (arith, there, good))
        ]
  ]

  asked-IsEntry : (entry : ℕ) → valid_request ≡ true → IsEntry (asked entry user req)
  asked-IsEntry entry valid = record {
    typed = ground (arith, valid);
    positive = ground (arith, valid);
    money = ground (arith, valid);
  }

  written-BookStep :
      (entry : ℕ) (g : GuestGift) (db : Db)
      → valid_request ≡ true
      → (g.tenant_id ≡ tenant) × (g.event_id ≡ event) × (g.guest_id ≡ guest)
      → CallStep
          (recording tenant event guest user req)
          (book_of db)
          (book_of (upsert_gift (v.down 2) (filled entry user req g) db).1)
  unfolding filled
  written-BookStep entry g db valid keys =
      widened (λ x. x ≡ some (asked entry user req))
        (Allows (recording tenant event guest user req)) g.tenant_id g.event_id g.guest_id tenant
        event guest _ _ keys (λ x e. (entry, e, asked-IsEntry entry valid))
        (upsert-book (v.down 2) (filled entry user req g) db)

  upsert-BookStep :
      (db : Db)
      → CallStep
          (recording tenant event guest user req)
          (book_of db)
          (book_of (upsert v tenant event guest user req db).1)
  upsert-BookStep db =
      let A = Allows (recording tenant event guest user req) in
      elim (checked db) [
        | inl stopped ↦
            BookStep-gifts A tenant event guest (book_of db) db _ (ap (λ s. s.gifts) (sym stopped))
              (kept (λ t e g. refl))
        | inr (eg, valid, whole) ↦ elim (stored eg.id db) [
          | inl idle ↦
              BookStep-gifts A tenant event guest (book_of db) db _
                (sym (ap (λ r. r.1.gifts) whole ∙ idle)) (kept (λ t e g. refl))
          | inr (g, one, two, three, written) ↦
              BookStep-gifts A tenant event guest (book_of db)
                (upsert_gift (v.down 2) (filled eg.id user req g) db).1 _
                (sym (ap (λ r. r.1.gifts) whole ∙ written))
                (written-BookStep eg.id g db valid (one, two, three))
        ]
      ]

delete-BookStep :
    (v : Env) (tenant event guest user : ℕ) (db : Db)
    → CallStep
        (removing tenant event guest user)
        (book_of db)
        (book_of (delete_gift v tenant event guest user db).1)
unfolding delete_gift log_with_user
delete-BookStep v tenant event guest user db =
    let same : (delete_gift_rows (v.down 0) (v.now 0) tenant event guest db).1.gifts
        ≡ (delete_gift v tenant event guest user db).1.gifts =
      elim (Result-cases (delete_gift_rows (v.down 0) (v.now 0) tenant event guest db).0) [
        | inl (a, done) ↦ ground (arith, done)
        | inr (e, failed) ↦ ground (arith, failed)
      ] in
    BookStep-gifts (λ x. x ≡ none) tenant event guest (book_of db)
      (delete_gift_rows (v.down 0) (v.now 0) tenant event guest db).1 _ same
      (delete-book (v.down 0) (v.now 0) tenant event guest db)

perform-BookStep :
    (v : Env) (call : Call) (db : Db) → CallStep call (book_of db) (book_of (perform v call db))
unfolding perform
perform-BookStep v (recording tenant event guest user req) db =
    upsert-BookStep v tenant event guest user req db
perform-BookStep v (removing tenant event guest user) db =
    delete-BookStep v tenant event guest user db

-- The rows of the gifts implement a book with at most one entry for each guest of an event: over
-- every sequence of calls, in any environment and with any of their statements failing, the book
-- that the rows say changes by one step for each call, which leaves it as it is, or makes the entry
-- of the call's guest, and no other, the one that the request asks for, of a known kind, with an
-- amount of at least one if any and with one for money, or, for a deletion, none.
pub serve_all-BookSteps :
    (rs : List Request) (db : Db) → BookSteps rs (book_of db) (book_of (serve_all rs db))
unfolding serve_all BookSteps
serve_all-BookSteps [] db = λ t e g. refl
serve_all-BookSteps (r ∷ rs) db = (
  book_of (perform r.env r.call db),
  perform-BookStep r.env r.call db,
  serve_all-BookSteps rs (perform r.env r.call db),
)
