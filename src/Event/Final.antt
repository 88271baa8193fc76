-- ===== src/Event/Final.antt =====
-- An event that is over stays as it is: `Update` and `Publish` of
-- internal/service/event_service.go refuse it.
use guestbook.Prelude.{
  ℕ, ◌==◌, ◌≡◌, refl, sym, ap, subst, ◌∙◌, true, some, inl, inr, arith, any, find_first,
  find_first-passes, find_first_unique, find_first-update_if, find_first-update_if_ne,
  any_of_find_first, Bool-cases,
}
use guestbook.Store.{Event, Db, is_event_of}
use guestbook.Event.Service.{is_over}
use guestbook.Event.Ordered.{AreSound}
use guestbook.Event.Effect.{Marked, Effect, same, added, changed, found_keys}
use guestbook.Event.Steps.{Reach, here, next, Step-Effect, found_in, Reach-AreSound}

-- The stored event with an id.
abbrev pub Stored : ℕ → Db → Event → Type 0
Stored i db e = find_first (λ x. x.id == i) db.events ≡ some e

Effect-Marked :
    (i : ℕ) (s t : Db) (e : Event)
    → Effect s t
    → AreSound s
    → Stored i s e
    → is_over e.status ≡ true
    → (e' : Event) × Stored i t e' × Marked e e'
unfolding find_first
Effect-Marked i s t e (same w) h at over =
    (e, ap (find_first (λ x. x.id == i)) w ∙ at, (e.deleted_at, e.updated_at, refl))
Effect-Marked i s t e (added n sound fresh w) h at over =
    let by_id = find_first-passes (λ x. x.id == i) s.events e at in
    elim (Bool-cases (n.id == i)) [
      | inl clash ↦
          let there : any (λ x. x.id == n.id) s.events ≡ true =
            any_of_find_first (λ x. x.id == i) (λ x. x.id == n.id) s.events e at
              (ground (arith, by_id, clash)) in
          cc (fresh, there)
      | inr other ↦ (
        e,
        ap (find_first (λ x. x.id == i)) w ∙ ground (arith, other, at),
        (e.deleted_at, e.updated_at, refl),
      )
    ]
Effect-Marked i s t e (changed id tenant f n found keeps marks ids w) h at over =
    let by_id = find_first-passes (λ x. x.id == i) s.events e at in
    let (key, of_tenant, _) = found_keys id tenant s n found in
    let there = found_in id tenant s n found in
    elim (Bool-cases (id == i)) [
      | inl hit ↦
          let one : n ≡ e =
            find_first_unique (λ x. x.id) (is_event_of id tenant) (λ x. x.id == i) s.events n e
              h.keys there at (ground (arith, hit, key, by_id)) in
          (
            f e,
            ap (find_first (λ x. x.id == i)) w
                ∙ find_first-update_if (is_event_of id tenant) (λ x. x.id == i) f s.events e
                    (λ x. ap (λ (k : ℕ). k == i) (ids x)) at
                    (subst (λ x. is_event_of id tenant x ≡ true) one
                      (find_first-passes (is_event_of id tenant) s.events n there)),
            subst (λ x. is_over x.status ≡ true → Marked x (f x)) one marks over,
          )
      | inr miss ↦ (
        e,
        ap (find_first (λ x. x.id == i)) w
            ∙ find_first-update_if_ne (λ x. x.id == i) (is_event_of id tenant) f s.events
                (λ x q. ground (arith, miss, q, ids x))
            ∙ at,
        (e.deleted_at, e.updated_at, refl),
      )
    ]

-- In a store of sound events with different ids, an event that is completed or cancelled stays as
-- it is, but for the marks of a deletion, whatever creations, updates, publications and deletions
-- follow, served one after the other and with any of their statements failing, where a new event
-- gets a new id.
pub Reach-Marked :
    {db s : Db} (i : ℕ) (e : Event)
    → AreSound db
    → Reach db s
    → Stored i db e
    → is_over e.status ≡ true
    → (e' : Event) × Stored i s e' × Marked e e'
Reach-Marked i e h here at over = (e, at, (e.deleted_at, e.updated_at, refl))
Reach-Marked i e h (next {s = s} {t = t} r step) at over =
    let (m, there, marked) = Reach-Marked i e h r at over in
    let only = marked.2 in
    let (n, now, again) =
      Effect-Marked i s t m (Step-Effect step) (Reach-AreSound h r) there
        (subst (λ x. is_over x.status ≡ true) (sym only) over) in
    (
      n,
      now,
      (
        again.0,
        again.1,
        again.2 ∙ ap (λ (x : Event). record x { deleted_at = again.0; updated_at = again.1 }) only,
      ),
    )
