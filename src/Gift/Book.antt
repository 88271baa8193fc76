-- ===== src/Gift/Book.antt =====
-- The book of gifts that internal/service/guest_gift_service.go promises: for each guest of an
-- event at most one entry, which a call writes or erases.
use guestbook.Prelude.{
  any_of_none, any_of_find_first, ℕ, ◌==◌, ℤ, String, ◌≡◌, refl, Bool, true, false, not, ◌&&◌,
  Option, none, some, List, [], ◌∷◌, if◌then◌else◌, inl, inr, arith, any, find_first, update_if,
  find_first-update_if_ne, find_first-passes, Bool-cases, Option-cases,
}
use guestbook.Store.{GuestGift, Db}
use guestbook.Gift.Repo.{is_gift_of, find_gift, overwritten, upsert_gift, delete_gift_rows}
use guestbook.Gift.Service.{is_valid_gift_type, is_money, is_below_one, is_missing}

pub record Entry : Type 0 where
  pub event_guest_id : ℕ
  pub amount : Option ℤ
  pub gift_type : String
  pub notes : Option String
  pub recorded_by : Option ℕ

-- A known kind of gift, an amount of at least one if any, and one for money.
pub record IsEntry (e : Entry) : Type 0 where
  pub typed : is_valid_gift_type e.gift_type ≡ true
  pub positive : is_below_one e.amount ≡ false
  pub money : (is_money e.gift_type && is_missing e.amount) ≡ false

abbrev pub Book : Type 0
Book = ℕ → ℕ → ℕ → Option Entry

-- The book with what stands for one guest of one event of one tenant.
abbrev pub write : ℕ → ℕ → ℕ → Option Entry → Book → Book
write tenant event guest x b t e g =
    if (tenant == t) && ((event == e) && (guest == g)) then x else b t e g

abbrev pub Same : Book → Book → Type 0
Same b b' = (t e g : ℕ) → b' t e g ≡ b t e g

-- A step of the book: it stays, or what stands for the one guest becomes something that is allowed.
pub data BookStep (Allowed : Option Entry → Type 0) (tenant event guest : ℕ) (b b' : Book)
    : Type 0 where
  kept : Same b b' → BookStep Allowed tenant event guest b b'
  changed :
      (x : Option Entry)
      → Allowed x
      → Same (write tenant event guest x b) b'
      → BookStep Allowed tenant event guest b b'

abbrev pub entry_of : GuestGift → Entry
entry_of g = record {
  event_guest_id = g.event_guest_id;
  amount = g.amount;
  gift_type = g.gift_type;
  notes = g.notes;
  recorded_by = g.recorded_by;
}

abbrev pub entry_if : Option GuestGift → Option Entry
entry_if none = none
entry_if (some g) = some (entry_of g)

-- What the rows say.
abbrev pub book_of : Db → Book
book_of db t e g = entry_if (find_gift t e g db)

-- A search that no row passes after its change.
find_first-update_if-none :
    {A : Type 0} (p : A → Bool) (f : A → A) (xs : List A)
    → ((x : A) → p (f x) ≡ false)
    → find_first p (update_if p f xs) ≡ none
unfolding find_first update_if
find_first-update_if-none p f [] k = refl
find_first-update_if-none p f (x ∷ xs) k = elim (Bool-cases (p x)) [
  | inl pass ↦ ground (arith, pass, k x, find_first-update_if-none p f xs k)
  | inr fail ↦ ground (arith, fail, find_first-update_if-none p f xs k)
]

-- A search whose rows still pass after their change.
find_first-update_if-own :
    {A : Type 0} (p : A → Bool) (f : A → A) (xs : List A) (r : A)
    → ((x : A) → p x ≡ true → p (f x) ≡ true)
    → find_first p xs ≡ some r
    → find_first p (update_if p f xs) ≡ some (f r)
unfolding find_first update_if
find_first-update_if-own p f [] r k h = cc h
find_first-update_if-own p f (x ∷ xs) r k h = elim (Bool-cases (p x)) [
  | inl pass ↦ ground (arith, pass, k x pass, h)
  | inr fail ↦ ground (arith, fail, h, find_first-update_if-own p f xs r k)
]

-- No row is of two guests.
apart :
    (t e g t' e' g' : ℕ) (x : GuestGift)
    → ((t == t') && ((e == e') && (g == g'))) ≡ false
    → is_gift_of t e g x ≡ true
    → is_gift_of t' e' g' x ≡ false
apart t e g t' e' g' x other h = ground (arith, other, h)

alike :
    (t e g t' e' g' : ℕ)
    → ((t == t') && ((e == e') && (g == g'))) ≡ true
    → (t ≡ t') × (e ≡ e') × (g ≡ g')
alike t e g t' e' g' h = (ground (arith, h), ground (arith, h), ground (arith, h))

pub delete-book :
    (down : Bool) (now tenant event guest : ℕ) (db : Db)
    → BookStep
        (λ x. x ≡ none)
        tenant
        event
        guest
        (book_of db)
        (book_of (delete_gift_rows down now tenant event guest db).1)
unfolding delete_gift_rows find_gift
delete-book down now tenant event guest db =
    let p = is_gift_of tenant event guest in
    let f : GuestGift → GuestGift = λ x. record x { deleted_at = some now; updated_at = now } in
    elim (Bool-cases (not down && any p db.gifts)) [
      | inr bad ↦ kept (λ t e g. ground (arith, bad))
      | inl good ↦ changed none refl (λ t e g.
          elim (Bool-cases ((tenant == t) && ((event == e) && (guest == g)))) [
            | inl hit ↦
                let (one, two, three) = alike tenant event guest t e g hit in
                let gone : find_first p (update_if p f db.gifts) ≡ none =
                  find_first-update_if-none p f db.gifts (λ x. ground arith) in
                ground (arith, good, hit, gone, one, two, three)
            | inr other ↦
                let rest : find_first (is_gift_of t e g) (update_if p f db.gifts)
                    ≡ find_first (is_gift_of t e g) db.gifts =
                  find_first-update_if_ne (is_gift_of t e g) p f db.gifts
                    (λ x q. (apart tenant event guest t e g x other q, ground arith)) in
                ground (arith, good, other, rest)
          ])
    ]

-- What an upsert that reaches the database makes of the book.
pub upsert-Same :
    (down : Bool) (item : GuestGift) (db : Db)
    → down ≡ false
    → Same
        (write item.tenant_id item.event_id item.guest_id (some (entry_of item)) (book_of db))
        (book_of (upsert_gift down item db).1)
unfolding upsert_gift find_gift find_first
upsert-Same down item db up t e g =
    let tenant : ℕ = item.tenant_id in
    let event : ℕ = item.event_id in
    let guest : ℕ = item.guest_id in
    let p = is_gift_of tenant event guest in
    let f = overwritten item in
    elim (Bool-cases ((tenant == t) && ((event == e) && (guest == g)))) [
      | inl hit ↦
          let (one, two, three) = alike tenant event guest t e g hit in
          elim (Option-cases (find_first p db.gifts)) [
            | inl missing ↦
                let none_there : any p db.gifts ≡ false = any_of_none p db.gifts missing in
                ground (arith, up, hit, none_there, one, two, three)
            | inr (r, found) ↦
                let there : any p db.gifts ≡ true =
                  any_of_find_first p p db.gifts r found (find_first-passes p db.gifts r found) in
                let now_there : find_first p (update_if p f db.gifts) ≡ some (f r) =
                  find_first-update_if-own p f db.gifts r (λ x q. ground (arith, q)) found in
                ground (arith, up, hit, there, now_there, one, two, three)
          ]
      | inr other ↦
          let rest : find_first (is_gift_of t e g) (update_if p f db.gifts)
              ≡ find_first (is_gift_of t e g) db.gifts =
            find_first-update_if_ne (is_gift_of t e g) p f db.gifts (λ x q. (
              apart tenant event guest t e g x other q,
              apart tenant event guest t e g (f x) other (ground (arith, q)),
            )) in
          let new : is_gift_of t e g (record item { deleted_at = none }) ≡ false =
            apart tenant event guest t e g (record item { deleted_at = none }) other
              (ground arith) in
          ground (arith, up, other, rest, new)
    ]

pub upsert-book :
    (down : Bool) (item : GuestGift) (db : Db)
    → BookStep
        (λ x. x ≡ some (entry_of item))
        item.tenant_id
        item.event_id
        item.guest_id
        (book_of db)
        (book_of (upsert_gift down item db).1)
unfolding upsert_gift
upsert-book down item db = elim (Bool-cases down) [
  | inl lost ↦ kept (λ t e g. ground (arith, lost))
  | inr up ↦ changed (some (entry_of item)) refl (upsert-Same down item db up)
]
