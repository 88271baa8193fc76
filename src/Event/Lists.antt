-- ===== src/Event/Lists.antt =====
-- The list of a tenant's events: `List` of internal/service/event_service.go over `ListByTenant`
-- and `CountByTenant` of internal/repository/event_repository.go.
use guestbook.Prelude.{
  ℕ, ◌-◌, ◌*◌, zero, suc, ltb, leb, ◌==◌, ℤ, pos, pos_part, ltb_ℤ, wrap_int, String, str_eq,
  is_empty, Bool, true, false, ◌&&◌, ◌||◌, Option, none, some, List, [], ◌∷◌, if◌then◌else◌, select,
  count_if, take,
}
use guestbook.Action.{Action, Env, gets, pure, statement, ◌>>=◌}
use guestbook.Store.{EventStatus, is_blank_event_status, Event, Db, is_null}

pub record EventFilter : Type 0 where
  pub status : EventStatus
  pub type : String
  pub start_from : Option ℕ
  pub start_to : Option ℕ
  pub page : ℤ
  pub per_page : ℤ

abbrev pub drop {ℓ} : {A : Type ℓ} → ℕ → List A → List A
drop zero xs = xs
drop (suc n) [] = []
drop (suc n) (x ∷ xs) = drop n xs

-- `e.status = $k`
abbrev pub same_status : EventStatus → EventStatus → Bool
same_status EventStatus.draft EventStatus.draft = true
same_status EventStatus.published EventStatus.published = true
same_status EventStatus.ongoing EventStatus.ongoing = true
same_status EventStatus.completed EventStatus.completed = true
same_status EventStatus.archived EventStatus.archived = true
same_status EventStatus.cancelled EventStatus.cancelled = true
same_status (EventStatus.other s) (EventStatus.other t) = str_eq s t
same_status _ _ = false

abbrev pub from_on : Option ℕ → ℕ → Bool
from_on none t = true
from_on (some s) t = leb s t

abbrev pub up_to : Option ℕ → ℕ → Bool
up_to none t = true
up_to (some s) t = leb t s

-- The conditions that `buildListQuery` and `buildCountQuery` share.
unfoldable pub matches : ℕ → EventFilter → Event → Bool
matches tenant f e =
    (e.tenant_id == tenant && is_null e.deleted_at)
    && ((is_blank_event_status f.status || same_status e.status f.status)
        && ((is_empty f.type || str_eq e.type f.type)
            && (from_on f.start_from e.start_date && up_to f.start_to e.start_date)))

-- `ORDER BY e.start_date DESC`; events that start together stay in the table's order.
unfoldable pub insert_by_start : Event → List Event → List Event
insert_by_start e [] = e ∷ []
insert_by_start e (x ∷ xs) =
    let rest = insert_by_start e xs in
    if ltb e.start_date x.start_date then x ∷ rest else e ∷ x ∷ xs

unfoldable pub by_start : List Event → List Event
unfolding insert_by_start
by_start [] = []
by_start (e ∷ es) = insert_by_start e (by_start es)

-- All that the filter admits, in order.
unfoldable pub listed : ℕ → EventFilter → Db → List Event
unfolding matches by_start
listed tenant f db = by_start (select (matches tenant f) db.events)

-- `(filter.Page - 1) * filter.PerPage`, for a page and a size above 0.
unfoldable pub offset_of : EventFilter → ℤ
offset_of f = wrap_int (pos ((pos_part f.page - 1) * pos_part f.per_page))

-- `ListByTenant`, for a page and a size above 0 and an offset that is not negative.
unfoldable pub list_by_tenant : ℕ → EventFilter → Db → List Event
unfolding listed offset_of
list_by_tenant tenant f db =
    take (pos_part f.per_page) (drop (pos_part (offset_of f)) (listed tenant f db))

-- `CountByTenant`
unfoldable pub count_by_tenant : ℕ → EventFilter → Db → ℕ
unfolding matches
count_by_tenant tenant f db = count_if (matches tenant f) db.events

-- `if x <= 0 { x = default }`
abbrev pub positive_or : ℤ → ℤ → ℤ
positive_or x default = if ltb_ℤ (pos 0) x then x else default

-- The page and the size of a page as `List` normalizes them.
unfoldable pub normalized : EventFilter → EventFilter
normalized f =
    let size = positive_or f.per_page (pos 20) in
    record f {
      page = positive_or f.page (pos 1);
      per_page = if ltb_ℤ (pos 100) size then pos 100 else size;
    }

-- `List`: a negative offset is an error of the database.
unfoldable pub list_events : Env → ℕ → EventFilter → Action Db (List Event × ℕ)
unfolding normalized offset_of list_by_tenant count_by_tenant
list_events v tenant f = do
  let g = normalized f
  events ← statement (v.down 0 || ltb_ℤ (offset_of g) (pos 0)) (gets (list_by_tenant tenant g))
  total ← statement (v.down 1) (gets (count_by_tenant tenant g))
  pure (events, total)
