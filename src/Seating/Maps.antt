-- ===== src/Seating/Maps.antt =====
-- The two maps that `AutoAssign` of internal/service/seating_service.go fills, and the rows that
-- `ListTablesByEvent` gives it.
use guestbook.Prelude.{
  ℕ, ◌==◌, ℤ, pos, ◌≡◌, refl, inl, inr, Bool, true, false, some, List, [], ◌∷◌, map, arith,
  if◌then◌else◌, find_first, select, any, All, All-imp, any_of_find_first, Bool-cases,
}
use guestbook.Store.{Table, SeatAssignment}
use guestbook.Seating.Repo.{TableWithOccupancy, occupancy_of}
use guestbook.Seating.Auto.{put, capacities, occupancies}
use guestbook.Seating.Capacity.{IsKeyed}

-- No two listed tables have one id.
abbrev pub IsKeyedList : List TableWithOccupancy → Type 0
IsKeyedList [] = Unit
IsKeyedList (t ∷ ts) = (any (λ x. x.table.id == t.table.id) ts ≡ false) × IsKeyedList ts

capacities_ne :
    (m : ℕ → ℤ) (ts : List TableWithOccupancy) (id : ℕ)
    → any (λ x. x.table.id == id) ts ≡ false
    → capacities m ts id ≡ m id
unfolding capacities any put
capacities_ne m [] id h = refl
capacities_ne m (t ∷ ts) id h = ground (
  arith,
  capacities_ne (if t.table.is_locked then m else put m t.table.id t.table.capacity) ts id,
)

occupancies_ne :
    (m : ℕ → ℤ) (ts : List TableWithOccupancy) (id : ℕ)
    → any (λ x. x.table.id == id) ts ≡ false
    → occupancies m ts id ≡ m id
unfolding occupancies any put
occupancies_ne m [] id h = refl
occupancies_ne m (t ∷ ts) id h = ground (
  arith,
  occupancies_ne (if t.table.is_locked then m else put m t.table.id (pos t.occupancy)) ts id,
)

-- Each unlocked table's entry is its own.
pub capacities-entry :
    (m : ℕ → ℤ) (ts : List TableWithOccupancy)
    → IsKeyedList ts
    → All (λ t. t.table.is_locked ≡ false → capacities m ts t.table.id ≡ t.table.capacity) ts
unfolding capacities put
capacities-entry m [] h = tt
capacities-entry m (t ∷ ts) h =
    let m' = if t.table.is_locked then m else put m t.table.id t.table.capacity in
    (
      λ unlocked. ground (arith, unlocked, capacities_ne m' ts t.table.id h.0),
      capacities-entry m' ts h.1,
    )

pub occupancies-entry :
    (m : ℕ → ℤ) (ts : List TableWithOccupancy)
    → IsKeyedList ts
    → All (λ t. t.table.is_locked ≡ false → occupancies m ts t.table.id ≡ pos t.occupancy) ts
unfolding occupancies put
occupancies-entry m [] h = tt
occupancies-entry m (t ∷ ts) h =
    let m' = if t.table.is_locked then m else put m t.table.id (pos t.occupancy) in
    (
      λ unlocked. ground (arith, unlocked, occupancies_ne m' ts t.table.id h.0),
      occupancies-entry m' ts h.1,
    )

module _ (p : Table → Bool) (seats : List SeatAssignment) where
  abbrev pub listed : Table → TableWithOccupancy
  listed t = record { table = t; occupancy = occupancy_of t.id seats }

  listed-any :
      (ts : List Table) (id : ℕ)
      → any (λ x. x.id == id) ts ≡ false
      → any (λ x. x.table.id == id) (map listed (select p ts)) ≡ false
  unfolding any select
  listed-any [] id h = refl
  listed-any (t ∷ ts) id h = elim (Bool-cases (p t)) [
    | inl pass ↦ rw pass (ground (arith, listed-any ts id))
    | inr fail ↦ rw fail (listed-any ts id (ground arith))
  ]

  pub listed-IsKeyed : (ts : List Table) → IsKeyed ts → IsKeyedList (map listed (select p ts))
  unfolding select
  listed-IsKeyed [] h = tt
  listed-IsKeyed (t ∷ ts) h = elim (Bool-cases (p t)) [
    | inl pass ↦ rw pass (listed-any ts t.id h.0, listed-IsKeyed ts h.1)
    | inr fail ↦ rw fail (listed-IsKeyed ts h.1)
  ]

  -- A listed row is the table with its id, with its present number of guests.
  abbrev pub IsListed : List Table → TableWithOccupancy → Type 0
  IsListed ts r =
      (find_first (λ x. x.id == r.table.id) ts ≡ some r.table)
      × (r.occupancy ≡ occupancy_of r.table.id seats)
      × (p r.table ≡ true)

  IsListed-later :
      (t : Table) (ts : List Table) (r : TableWithOccupancy)
      → any (λ x. x.id == t.id) ts ≡ false
      → IsListed ts r
      → IsListed (t ∷ ts) r
  unfolding find_first
  IsListed-later t ts r new h = elim (Bool-cases (t.id == r.table.id)) [
    | inl same ↦
        let again : any (λ x. x.id == t.id) ts ≡ true =
          any_of_find_first (λ x. x.id == r.table.id) (λ x. x.id == t.id) ts r.table h.0
            (ground (arith, same)) in
        cc (new, again)
    | inr other ↦ (rw other h.0, h.1, h.2)
  ]

  pub listed-IsListed :
      (ts : List Table) → IsKeyed ts → All (IsListed ts) (map listed (select p ts))
  unfolding select find_first
  listed-IsListed [] h = tt
  listed-IsListed (t ∷ ts) h =
      let rest =
        All-imp (IsListed ts) (IsListed (t ∷ ts)) (map listed (select p ts))
          (λ r. IsListed-later t ts r h.0) (listed-IsListed ts h.1) in
      elim (Bool-cases (p t)) [
        | inl pass ↦ rw pass ((ground arith, refl, pass), rest)
        | inr fail ↦ rw fail rest
      ]
