-- ===== src/Event/Pages.antt =====
-- The pages of the list of events, put together: `List` of internal/service/event_service.go.
use guestbook.Prelude.{ℕ, zero, suc, ◌≤◌, pos, pos_part, List, [], ◌∷◌, ◌++◌, All}
use guestbook.Store.{Event, Db}
use guestbook.Event.Lists.{EventFilter, list_by_tenant, normalized}

-- The filter at the k-th page, as `List` normalizes it.
abbrev pub at_page : ℕ → EventFilter → EventFilter
at_page k f = normalized (record f { page = pos k })

-- The size of a page: 20 by default, and 100 at most.
abbrev pub size_of : EventFilter → ℕ
size_of f = pos_part (normalized f).per_page

-- The rows of the pages 1 to n, in turn.
unfoldable pub pages : ℕ → ℕ → EventFilter → Db → List Event
pages zero tenant f db = []
pages (suc n) tenant f db = pages n tenant f db ++ list_by_tenant tenant (at_page (suc n) f) db

-- Latest start first.
abbrev pub IsSorted : List Event → Type 0
IsSorted [] = Unit
IsSorted (e ∷ es) = All (λ x. x.start_date ≤ e.start_date) es × IsSorted es
