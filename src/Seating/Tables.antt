-- ===== src/Seating/Tables.antt =====
-- The changes of tables, and a seat that is given up, keep every table within its capacity:
-- `CreateTable`, `DeleteTable` and `UnassignGuest` of
-- internal/service/seating_service.go.
use guestbook.Prelude.{
  ℕ, ◌==◌, pos, ◌≤ℤ◌, trim_space, is_empty, ◌≡◌, refl, sym, ap, subst, ◌∙◌, ◌⊎◌, inl, inr, Bool,
  false, not, some, List, [], ◌∷◌, arith, if◌then◌else◌, any, select, update_if, All-imp,
  All-update_if, any-update_if, count_if-select-le,
}
use guestbook.Action.{Env}
use guestbook.Store.{Table, SeatAssignment, Db}
use guestbook.Seating.Repo.{occupancy_of, is_table_of, soft_delete_table, is_seat, delete_seat}
use guestbook.Seating.Service.{
  TableCreateRequest, new_table, create_table, delete_table, unassign_guest,
}
use guestbook.Seating.Capacity.{Fits, IsKeyed, IsSeated}

-- Fewer seats taken.
fewer-IsSeated :
    (q : SeatAssignment → Bool) (db : Db)
    → IsSeated db
    → IsSeated (record db { seats = select q db.seats })
unfolding occupancy_of
fewer-IsSeated q db h = record {
  fits =
      All-imp (Fits db.seats) (Fits (select q db.seats)) db.tables
        (λ t fit live. ground (
          arith,
          fit live,
          count_if-select-le (λ (s : SeatAssignment). s.table_id == t.id) q db.seats,
        ))
        h.fits;
  keyed = h.keyed;
}

-- Only the tables matter, and the seats.
pub same_rows-IsSeated :
    (db db' : Db) → db'.tables ≡ db.tables → db'.seats ≡ db.seats → IsSeated db → IsSeated db'
same_rows-IsSeated db db' ts ss h = record { fits = rw (ts, ss) h.fits; keyed = rw ts h.keyed }

pub unassign_guest-IsSeated :
    (v : Env) (tenant event id guest : ℕ) (db : Db)
    → IsSeated db
    → IsSeated (unassign_guest v tenant event id guest db).1
unassign_guest-IsSeated v tenant event id guest db h =
    let outcome : ((unassign_guest v tenant event id guest db).1 ≡ db)
        ⊎ ((unassign_guest v tenant event id guest db).1
            ≡ record db { seats = select (λ s. not (is_seat id guest s)) db.seats }) =
      unfold unassign_guest delete_seat in ground arith in
    elim outcome [
      | inl same ↦ subst IsSeated (sym same) h
      | inr gone ↦ subst IsSeated (sym gone) (fewer-IsSeated (λ s. not (is_seat id guest s)) db h)
    ]

-- A change of rows that keeps their ids keeps them apart.
pub update_if-IsKeyed :
    (p : Table → Bool) (f : Table → Table) (ts : List Table)
    → ((t : Table) → (f t).id ≡ t.id)
    → IsKeyed ts
    → IsKeyed (update_if p f ts)
unfolding update_if
update_if-IsKeyed p f [] k h = tt
update_if-IsKeyed p f (t ∷ ts) k h =
    let same_id : (if p t then f t else t).id ≡ t.id = ground (arith, k t) in
    (
      rw same_id (
          any-update_if (λ (x : Table). x.id == t.id) p f ts (λ x. ap (λ (i : ℕ). i == t.id) (k x))
          ∙ h.0),
      update_if-IsKeyed p f ts k h.1,
    )

-- The row is marked as deleted.
abbrev mark_deleted : Env → Table → Table
mark_deleted v t = record t { deleted_at = some (v.now 0); updated_at = v.now 0 }

soft_delete_table_effect :
    (v : Env) (tenant event id : ℕ) (db : Db)
    → ((soft_delete_table v tenant event id db).1 ≡ db)
      ⊎ ((soft_delete_table v tenant event id db).1 ≡ record db {
        tables = update_if (is_table_of tenant event id) (mark_deleted v) db.tables;
        seats = select (λ s. not (s.table_id == id)) db.seats;
      })
unfolding soft_delete_table
soft_delete_table_effect v tenant event id db = ground arith

soft_delete_table-IsSeated :
    (v : Env) (tenant event id : ℕ) (db : Db)
    → IsSeated db
    → IsSeated (soft_delete_table v tenant event id db).1
soft_delete_table-IsSeated v tenant event id db h =
    let fewer = fewer-IsSeated (λ s. not (s.table_id == id)) db h in
    elim (soft_delete_table_effect v tenant event id db) [
      | inl same ↦ subst IsSeated (sym same) h
      | inr gone ↦ rw gone (record {
        fits =
            All-update_if (Fits (select (λ s. not (s.table_id == id)) db.seats))
              (Fits (select (λ s. not (s.table_id == id)) db.seats)) (is_table_of tenant event id)
              (mark_deleted v) db.tables (λ t q fit live. cc live) (λ t q fit. fit) fewer.fits;
        keyed =
            update_if-IsKeyed (is_table_of tenant event id) (mark_deleted v) db.tables (λ t. refl)
              h.keyed;
      })
    ]

-- The audit entry is no seat and no table.
delete_table_rows :
    (v : Env) (tenant event id by : ℕ) (db : Db)
    → ((delete_table v tenant event id by db).1.tables
        ≡ (soft_delete_table v tenant event id db).1.tables)
      × ((delete_table v tenant event id by db).1.seats
          ≡ (soft_delete_table v tenant event id db).1.seats)
unfolding delete_table
delete_table_rows v tenant event id by db = ground arith

pub delete_table-IsSeated :
    (v : Env) (tenant event id by : ℕ) (db : Db)
    → IsSeated db
    → IsSeated (delete_table v tenant event id by db).1
delete_table-IsSeated v tenant event id by db h =
    same_rows-IsSeated (soft_delete_table v tenant event id db).1
      (delete_table v tenant event id by db).1 (delete_table_rows v tenant event id by db).0
      (delete_table_rows v tenant event id by db).1
      (soft_delete_table-IsSeated v tenant event id db h)

create_table_effect :
    (v : Env) (tenant event : ℕ) (req : TableCreateRequest) (db : Db)
    → ((create_table v tenant event req db).1 ≡ db)
      ⊎ ((pos 1 ≤ℤ req.capacity)
          × ((create_table v tenant event req db).1 ≡ record db {
            tables =
                new_table v tenant event req
                  (trim_space req.name)
                  (if is_empty req.shape then "round" else req.shape)
                ∷ db.tables;
          }))
unfolding create_table
create_table_effect v tenant event req db = ground arith

-- A new table needs a new id, which no seat refers to yet.
pub create_table-IsSeated :
    (v : Env) (tenant event : ℕ) (req : TableCreateRequest) (db : Db)
    → any (λ t. t.id == v.fresh 0) db.tables ≡ false
    → occupancy_of (v.fresh 0) db.seats ≡ 0
    → IsSeated db
    → IsSeated (create_table v tenant event req db).1
create_table-IsSeated v tenant event req db new empty h =
    let t =
      new_table v tenant event req (trim_space req.name)
        (if is_empty req.shape then "round" else req.shape) in
    let outcome : ((create_table v tenant event req db).1 ≡ db)
        ⊎ ((pos 1 ≤ℤ req.capacity)
            × ((create_table v tenant event req db).1 ≡ record db { tables = t ∷ db.tables })) =
      create_table_effect v tenant event req db in
    elim outcome [
      | inl same ↦ subst IsSeated (sym same) h
      | inr (room, made) ↦
          rw made (record {
            fits = (λ live. ground (arith, empty, room), h.fits);
            keyed = (new, h.keyed);
          })
    ]
