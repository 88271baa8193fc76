-- ===== src/Seating/Update.antt =====
-- A change of a table keeps every table within its capacity: `UpdateTable` of
-- internal/service/seating_service.go.
use guestbook.Prelude.{
  ℕ, ℤ, pos, ◌≤ℤ◌, ◌≡◌, refl, sym, ap, subst, ◌⊎◌, inl, inr, true, none, some, List, arith,
  update_if, All-zip, All-update_if, find_first-passes, Option-cases,
}
use guestbook.Action.{Env}
use guestbook.Store.{Table, SeatAssignment, Db}
use guestbook.Seating.Repo.{occupancy_of, is_table_of, find_table, merge_table, is_live_table}
use guestbook.Seating.Service.{TableUpdateRequest, apply_update, update_table}
use guestbook.Seating.Capacity.{Fits, IsSeated, only_row}
use guestbook.Seating.Tables.{update_if-IsKeyed}

-- `UpdateTable` writes nothing, or the merged row, and a new capacity is at least 1 and at least
-- the number of guests.
update_table_effect :
    (v : Env) (tenant event id : ℕ) (req : TableUpdateRequest) (db : Db) (t : Table)
    → find_table tenant event id db ≡ some t
    → let new = apply_update (v.now 0) req t in
      ((update_table v tenant event id req db).1 ≡ db)
      ⊎ (((req.capacity ≡ none)
            ⊎ ((c : ℤ) × (req.capacity ≡ some c)
                × (pos 1 ≤ℤ c)
                × (pos (occupancy_of id db.seats) ≤ℤ c)))
          × ((update_table v tenant event id req db).1 ≡ record db {
            tables = update_if (is_live_table t.id t.tenant_id) (merge_table new) db.tables;
          }))
unfolding update_table
update_table_effect v tenant event id req db t found = elim (Option-cases req.capacity) [
  | inl keep ↦
      let outcome : ((update_table v tenant event id req db).1 ≡ db)
          ⊎ ((update_table v tenant event id req db).1 ≡ record db {
            tables =
                update_if (is_live_table t.id t.tenant_id)
                  (merge_table (apply_update (v.now 0) req t)) db.tables;
          }) =
        ground (arith, found, keep) in
      elim outcome [ inl same ↦ inl same | inr done ↦ inr (inl keep, done) ]
  | inr (c, change) ↦
      let outcome : ((update_table v tenant event id req db).1 ≡ db)
          ⊎ ((pos 1 ≤ℤ c)
              × (pos (occupancy_of id db.seats) ≤ℤ c)
              × ((update_table v tenant event id req db).1 ≡ record db {
                tables =
                    update_if (is_live_table t.id t.tenant_id)
                      (merge_table (apply_update (v.now 0) req t)) db.tables;
              })) =
        ground (arith, found, change) in
      elim outcome [
        | inl same ↦ inl same
        | inr (low, enough, done) ↦ inr (inr (c, change, low, enough), done)
      ]
]

-- The merged row of a table has room for the guests that it had.
merge_table-Fits :
    (v : Env) (req : TableUpdateRequest) (seats : List SeatAssignment) (t x : Table)
    → (req.capacity ≡ none)
      ⊎ ((c : ℤ) × (req.capacity ≡ some c) × (pos 1 ≤ℤ c) × (pos (occupancy_of x.id seats) ≤ℤ c))
    → x ≡ t
    → Fits seats x
    → Fits seats (merge_table (apply_update (v.now 0) req t) x)
unfolding merge_table
merge_table-Fits v req seats t x change same fit live = elim change [
  | inl keep ↦ ground (arith, keep, fit live, ap (λ (y : Table). y.capacity) same)
  | inr (c, to, low, enough) ↦ ground (arith, to, low, enough)
]

pub update_table-IsSeated :
    (v : Env) (tenant event id : ℕ) (req : TableUpdateRequest) (db : Db)
    → IsSeated db
    → IsSeated (update_table v tenant event id req db).1
unfolding find_table
update_table-IsSeated v tenant event id req db h =
    elim (Option-cases (find_table tenant event id db)) [
      | inl missing ↦
          let same : (update_table v tenant event id req db).1 ≡ db =
            unfold update_table in ground (arith, missing) in
          subst IsSeated (sym same) h
      | inr (t, found) ↦ elim (update_table_effect v tenant event id req db t found) [
        | inl same ↦ subst IsSeated (sym same) h
        | inr (change, done) ↦
            let new = apply_update (v.now 0) req t in
            let keys = λ (x : Table) (q : is_table_of tenant event id x ≡ true).
              let same : x.id ≡ id = ground (arith, q) in same in
            let t_id : t.id ≡ id =
              keys t (find_first-passes (is_table_of tenant event id) db.tables t found) in
            let rows = only_row (is_table_of tenant event id) id db.tables t keys h.keyed found in
            rw done (record {
              fits =
                  All-update_if (λ x. Fits db.seats x × (x.id ≡ id → x ≡ t)) (Fits db.seats)
                    (is_live_table t.id t.tenant_id) (merge_table new) db.tables
                    (λ x q fit.
                      let x_id : x.id ≡ id = ground (arith, q, t_id) in
                      merge_table-Fits v req db.seats t x (rw x_id change) (fit.1 x_id) fit.0)
                    (λ x q fit. fit.0)
                    (All-zip (Fits db.seats) (λ x. x.id ≡ id → x ≡ t)
                      (λ x. Fits db.seats x × (x.id ≡ id → x ≡ t)) db.tables (λ x f r. (f, r))
                      h.fits rows);
              keyed =
                  update_if-IsKeyed (is_live_table t.id t.tenant_id) (merge_table new) db.tables
                    (λ x. unfold merge_table in refl) h.keyed;
            })
      ]
    ]
