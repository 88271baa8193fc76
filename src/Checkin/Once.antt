-- ===== src/Checkin/Once.antt =====
-- Nobody is admitted twice: what the calls of internal/service/checkin_service.go append to the
-- table checkins.
use guestbook.Prelude.{
  ℕ, ◌≤◌, ℤ, pos, ◌+ℤ◌, ◌≤ℤ◌, wrap_int, wrap_int_id, wrap_int-IsInt, eq_of_parts, int_laws, ◌≡◌,
  refl, sym, ap, subst, ◌∙◌, inl, inr, Bool, true, false, Option, ◌∷◌, arith, if◌then◌else◌,
  count_if, Bool-cases,
}
use guestbook.Action.{Action, statement, gets, gets_is, gets_read_only, bind_keeps, ◌>>=◌, Env}
use guestbook.Store.{CheckinStatus, is_success, EventGuest, Checkin, Db, get_event, log_with_user}
use guestbook.Checkin.Repo.{CheckinRequest, insert_checkin, is_success_of, successes, is_checked_in}
use guestbook.Checkin.Admission.{
  checked_pax, default_adults, is_balanced, balanced_adults, balanced_children, failed_checkin,
  record_failed, new_checkin, admit, require_entry, admit_or_refuse, perform_checkin,
}

-- The people of a check-in: at least one, and the adults and the children add up.
abbrev pub IsBalanced : Checkin → Type 0
IsBalanced c = (pos 1 ≤ℤ c.actual_pax) × (wrap_int (c.adults +ℤ c.children) ≡ wrap_int c.actual_pax)

-- What one call appends to the table: nothing, an attempt that failed, or the check-in of a guest
-- who had none.
pub data Entry (db : Db) : Db → Type 0 where
  kept : {db' : Db} → db'.checkins ≡ db.checkins → Entry db db'
  refused :
      {db' : Db} (c : Checkin)
      → is_success c.status ≡ false
      → db'.checkins ≡ c ∷ db.checkins
      → Entry db db'
  admitted :
      {db' : Db} (c : Checkin)
      → is_checked_in c.tenant_id c.event_id c.guest_id db ≡ false
      → IsBalanced c
      → db'.checkins ≡ c ∷ db.checkins
      → Entry db db'

-- Every guest has at most one check-in at an event.
abbrev pub Once : Db → Type 0
Once db = (tenant event guest : ℕ) → successes tenant event guest db ≤ 1

pub Entry-Once : {db db' : Db} → Entry db db' → Once db → Once db'
unfolding successes is_checked_in count_if
Entry-Once {db = db} {db' = db'} (kept e) h tenant event guest =
    ground (arith, e, h tenant event guest)
Entry-Once {db = db} {db' = db'} (refused c failed e) h tenant event guest =
    ground (arith, e, failed, h tenant event guest)
Entry-Once {db = db} {db' = db'} (admitted c new b e) h tenant event guest =
    elim (Bool-cases (is_success_of tenant event guest c)) [
      | inl same ↦
          let t : c.tenant_id ≡ tenant = ground (arith, same) in
          let ev : c.event_id ≡ event = ground (arith, same) in
          let g : c.guest_id ≡ guest = ground (arith, same) in
          let none_yet : is_checked_in tenant event guest db ≡ false =
            subst (λ x. is_checked_in tenant event x db ≡ false) g
              (subst (λ x. is_checked_in tenant x c.guest_id db ≡ false) ev
                (subst (λ x. is_checked_in x c.event_id c.guest_id db ≡ false) t new)) in
          ground (arith, e, same, none_yet)
      | inr other ↦ ground (arith, e, other, h tenant event guest)
    ]

pub record_failed-Entry :
    (down : Bool) (v : Env) (tenant event : ℕ) (officer : Option ℕ) (req : CheckinRequest)
    (status : CheckinStatus) (db : Db)
    → is_success status ≡ false
    → Entry db (record_failed down v tenant event officer req status db).1
unfolding record_failed insert_checkin failed_checkin
record_failed-Entry true v tenant event officer req status db failed = kept refl
record_failed-Entry false v tenant event officer req status db failed =
    refused (failed_checkin v tenant event officer req status) failed refl

add_zero : (x : ℤ) → x +ℤ pos 0 ≡ x
add_zero x = grind int_laws

-- The people that are recorded add up, at 64 bits.
checked_balanced :
    (req : CheckinRequest)
    → (pos 1 ≤ℤ checked_pax req.actual_pax)
      × (wrap_int (balanced_adults req +ℤ balanced_children req)
          ≡ wrap_int (checked_pax req.actual_pax))
checked_balanced req =
    let total = wrap_int (default_adults req +ℤ req.children) in
    let at : Bool → ℤ = λ b. wrap_int (
      (if b then default_adults req else checked_pax req.actual_pax)
      +ℤ (if b then req.children else pos 0)) in
    let one : pos 1 ≤ℤ checked_pax req.actual_pax = ground arith in
    elim (Bool-cases (is_balanced req)) [
      | inl adds ↦
          let same : total ≡ checked_pax req.actual_pax =
            eq_of_parts total (checked_pax req.actual_pax) (ground (arith, adds)) in
          let twice : wrap_int total ≡ total =
            wrap_int_id total (wrap_int-IsInt (default_adults req +ℤ req.children)) in
          (one, ap at adds ∙ sym twice ∙ ap wrap_int same)
      | inr off ↦ (one, ap at off ∙ ap wrap_int (add_zero (checked_pax req.actual_pax)))
    ]

pub read_event :
    (down : Bool) (event tenant : ℕ) (db : Db) → (get_event down event tenant db).1 ≡ db
read_event down event tenant db = ground arith

pub read_entry :
    (down : Bool) (tenant event guest : ℕ) (db : Db)
    → (require_entry down tenant event guest db).1 ≡ db
read_entry down tenant event guest db = ground arith

module _ (v : Env) (tenant event guest : ℕ) (invitation officer : Option ℕ) (req : CheckinRequest)
    (db : Db) where
  admit-Entry :
      (entry : ℕ)
      → is_checked_in tenant event guest db ≡ false
      → Entry db (admit v tenant event guest entry invitation officer req db).1
  unfolding admit insert_checkin new_checkin log_with_user
  admit-Entry entry new =
      let c = new_checkin v tenant event guest entry invitation officer req in
      elim (Bool-cases (v.down 3)) [
        | inl down ↦ kept (ground (arith, down))
        | inr up ↦ admitted c new (checked_balanced req) (ground (arith, up))
      ]

  decide :
      (entry : ℕ) (present : Bool)
      → is_checked_in tenant event guest db ≡ present
      → Entry db (admit_or_refuse v tenant event guest entry invitation officer req present db).1
  decide entry true e =
      record_failed-Entry (v.down 3) v tenant event officer req CheckinStatus.duplicate db refl
  decide entry false e = admit-Entry entry e

  -- One check-in of a guest: nothing, a failed attempt, or the first admission.
  pub perform_checkin-Entry :
      Entry db (perform_checkin v tenant event guest invitation officer req db).1
  unfolding perform_checkin
  perform_checkin-Entry =
      let count : Action Db Bool = statement (v.down 2) (gets (is_checked_in tenant event guest)) in
      let last : ℕ → Bool → Action Db Checkin = λ entry present.
        admit_or_refuse v tenant event guest entry invitation officer req present in
      let rest : EventGuest → Action Db Checkin = λ entry. count >>= last entry.id in
      bind_keeps (Entry db) (get_event (v.down 0) event tenant)
        (λ _. require_entry (v.down 1) tenant event guest >>= rest) db
        (read_event (v.down 0) event tenant db) (kept refl)
        (λ _ _.
          bind_keeps (Entry db) (require_entry (v.down 1) tenant event guest) rest db
            (read_entry (v.down 1) tenant event guest db) (kept refl)
            (λ entry _.
              bind_keeps (Entry db) count (last entry.id) db
                (gets_read_only (v.down 2) (is_checked_in tenant event guest) db) (kept refl)
                (λ present counted.
                  decide entry.id present
                    (gets_is (v.down 2) (is_checked_in tenant event guest) db present counted))))
