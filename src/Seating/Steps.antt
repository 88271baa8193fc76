-- ===== src/Seating/Steps.antt =====
-- Every history of seating requests (internal/service/seating_service.go).
use guestbook.Prelude.{ℕ, ◌==◌, ◌≡◌, false, any}
use guestbook.Action.{Env}
use guestbook.Store.{Db}
use guestbook.Seating.Repo.{occupancy_of}
use guestbook.Seating.Service.{
  TableCreateRequest, TableUpdateRequest, AssignGuestRequest, create_table, update_table,
  delete_table, assign_guest, unassign_guest,
}
use guestbook.Seating.Auto.{auto_assign}
use guestbook.Seating.Capacity.{IsSeated, assign_guest-IsSeated}
use guestbook.Seating.Tables.{create_table-IsSeated, delete_table-IsSeated, unassign_guest-IsSeated}
use guestbook.Seating.Update.{update_table-IsSeated}
use guestbook.Seating.AutoCapacity.{auto_assign-IsSeated}

-- One request, in any environment. A table that is created gets an id that no table and no seat
-- has.
pub data Step (db : Db) : Db → Type 0 where
  create :
      (v : Env) (tenant event : ℕ) (req : TableCreateRequest)
      → any (λ t. t.id == v.fresh 0) db.tables ≡ false
      → occupancy_of (v.fresh 0) db.seats ≡ 0
      → Step db (create_table v tenant event req db).1
  update :
      (v : Env) (tenant event id : ℕ) (req : TableUpdateRequest)
      → Step db (update_table v tenant event id req db).1
  delete : (v : Env) (tenant event id by : ℕ) → Step db (delete_table v tenant event id by db).1
  assign :
      (v : Env) (tenant event id : ℕ) (req : AssignGuestRequest) (by : ℕ)
      → Step db (assign_guest v tenant event id req by db).1
  unassign :
      (v : Env) (tenant event id guest : ℕ) → Step db (unassign_guest v tenant event id guest db).1
  auto : (v : Env) (tenant event by : ℕ) → Step db (auto_assign v tenant event by db).1

pub data Reach (db : Db) : Db → Type 0 where
  here : Reach db db
  next : {s t : Db} → Reach db s → Step s t → Reach db t

Step-IsSeated : {s t : Db} → Step s t → IsSeated s → IsSeated t
Step-IsSeated {s = s} (create v tenant event req new empty) h =
    create_table-IsSeated v tenant event req s new empty h
Step-IsSeated {s = s} (update v tenant event id req) h =
    update_table-IsSeated v tenant event id req s h
Step-IsSeated {s = s} (delete v tenant event id by) h =
    delete_table-IsSeated v tenant event id by s h
Step-IsSeated {s = s} (assign v tenant event id req by) h =
    assign_guest-IsSeated v tenant event id req by s h
Step-IsSeated {s = s} (unassign v tenant event id guest) h =
    unassign_guest-IsSeated v tenant event id guest s h
Step-IsSeated {s = s} (auto v tenant event by) h = auto_assign-IsSeated v tenant event by s h

-- From a store where table ids are keys and no live table has more guests than seats, over every
-- history of requests on tables and seats, served one after the other and with any of their
-- statements failing, where a table that is created gets an id that no table and no seat has: no
-- live table ever has more guests than seats.
pub Reach-IsSeated : {db s : Db} → IsSeated db → Reach db s → IsSeated s
Reach-IsSeated h here = h
Reach-IsSeated h (next r step) = Step-IsSeated step (Reach-IsSeated h r)
