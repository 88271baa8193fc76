-- ===== src/Checkin/Histories.antt =====
-- Every history of check-ins (internal/service/checkin_service.go).
use guestbook.Prelude.{ℕ, ℤ, String, ◌≡◌, sym, subst, true, Option, arith, All}
use guestbook.Action.{Env}
use guestbook.Store.{is_success, Event, Invitation, Db}
use guestbook.Checkin.Repo.{CheckinRequest, WalkinRequest}
use guestbook.Checkin.Service.{process_checkin, process_self_checkin}
use guestbook.Checkin.Walkin.{process_walkin}
use guestbook.Checkin.Once.{Entry, kept, refused, admitted, Once, IsBalanced, Entry-Once}
use guestbook.Checkin.Entries.{
  process_checkin-Entry, process_self_checkin-Entry, process_walkin-Entry,
}

-- One request, in any environment.
pub data Step (sha256 : String → String) (db : Db) : Db → Type 0 where
  scan :
      (v : Env) (tenant event : ℕ) (officer : Option ℕ) (req : CheckinRequest)
      → Step sha256 db (process_checkin sha256 v tenant event officer req db).1
  self :
      (v : Env) (event : Event) (i : Invitation) (pax : ℤ)
      → Step sha256 db (process_self_checkin v event i pax db).1
  walkin :
      (v : Env) (tenant event : ℕ) (officer : Option ℕ) (req : WalkinRequest)
      → Step sha256 db (process_walkin v tenant event officer req db).1

pub data Reach (sha256 : String → String) (db : Db) : Db → Type 0 where
  here : Reach sha256 db db
  next : {s t : Db} → Reach sha256 db s → Step sha256 s t → Reach sha256 db t

Step-Entry : {sha256 : String → String} {s t : Db} → Step sha256 s t → Entry s t
Step-Entry {sha256 = sha256} {s = s} (scan v tenant event officer req) =
    process_checkin-Entry sha256 v tenant event officer req s
Step-Entry {s = s} (self v event i pax) = process_self_checkin-Entry v event i pax s
Step-Entry {s = s} (walkin v tenant event officer req) =
    process_walkin-Entry v tenant event officer req s

-- Every admission that a store records is of at least one person, and the adults and children
-- add up.
abbrev pub Counted : Db → Type 0
Counted db = All (λ c. is_success c.status ≡ true → IsBalanced c) db.checkins

Entry-Counted : {db db' : Db} → Entry db db' → Counted db → Counted db'
Entry-Counted (kept e) h = subst (All (λ c. is_success c.status ≡ true → IsBalanced c)) (sym e) h
Entry-Counted (refused c failed e) h =
    subst (All (λ c. is_success c.status ≡ true → IsBalanced c)) (sym e)
      (λ good. absurd (ground (arith, good, failed)), h)
Entry-Counted (admitted c new balanced e) h =
    subst (All (λ c. is_success c.status ≡ true → IsBalanced c)) (sym e) (λ _. balanced, h)

-- From a store where this holds, over every history of check-ins by scan, by search, by the guest
-- and of walk-ins, served one after the other and with any of their statements failing: no guest
-- is admitted to an event twice, every admission is of at least one person, and its adults and
-- children add up at 64 bits.
pub Reach-Once :
    (sha256 : String → String) {db s : Db}
    → Once db
    → Counted db
    → Reach sha256 db s
    → Once s × Counted s
Reach-Once sha256 h g here = (h, g)
Reach-Once sha256 h g (next r step) =
    let (h', g') = Reach-Once sha256 h g r in
    (Entry-Once (Step-Entry step) h', Entry-Counted (Step-Entry step) g')
