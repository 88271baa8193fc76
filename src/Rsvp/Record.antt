-- ===== src/Rsvp/Record.antt =====
-- What `Submit` of internal/service/rsvp_service.go stores.
use guestbook.Prelude.{
  ℕ, ◌==◌, ℤ, String, ◌≡◌, refl, sym, ap, subst, ◌∙◌, Option, none, some, arith, find_first,
  Distinct, find_first-update_if, update_if-Distinct, any_of_none,
}
use guestbook.Action.{ok, Env}
use guestbook.Store.{RsvpStatus, Invitation, RsvpResponse, Db, find_invitation_by_hash}
use guestbook.Rsvp.Repo.{RsvpRequest, with_texts, find_rsvp, is_rsvp_of, merge_rsvp}
use guestbook.Rsvp.Service.{submit, submitted_pax, record_answer, first_answer, edit_by_guest}
use guestbook.Rsvp.Effect.{
  rsvps-record_answer-none, rsvps-record_answer-some, answer_accepted, submit_accepted,
}

-- What the store holds as the answer to an invitation.
abbrev pub stored_answer : ℕ → Db → Option (RsvpStatus × ℤ × ℤ × ℤ)
stored_answer invitation db = elim (find_rsvp invitation db) [
  | none ↦ none
  | some r ↦ some (r.status, r.attending_pax, r.adults, r.children)
]

abbrev pub OneEach : Db → Type 0
OneEach db = Distinct (λ (r : RsvpResponse). r.invitation_id) db.rsvps

module _ (v : Env) (i : Invitation) (ip : String) (req : RsvpRequest) (db : Db)
    (r : RsvpResponse) where
  pub record_answer_stored :
      (old : Option RsvpResponse)
      → find_rsvp i.id db ≡ old
      → (record_answer v i ip req old db).0 ≡ ok r
      → stored_answer i.id (record_answer v i ip req old db).1
        ≡ some (req.status, submitted_pax req, req.adults, req.children)
  unfolding find_rsvp first_answer edit_by_guest with_texts merge_rsvp find_first
  record_answer_stored none found h = ground (arith, rsvps-record_answer-none v i ip req db r h)
  record_answer_stored (some old) found h =
      let edited = edit_by_guest (v.now 2) ip req old in
      ground (
        arith,
        rsvps-record_answer-some v i ip req db old r h,
        find_first-update_if (is_rsvp_of old.id old.tenant_id) (λ x. x.invitation_id == i.id)
            (merge_rsvp edited) db.rsvps old (λ x. refl) found (ground arith),
      )

  pub record_answer-OneEach :
      (old : Option RsvpResponse)
      → find_rsvp i.id db ≡ old
      → (record_answer v i ip req old db).0 ≡ ok r
      → OneEach db
      → OneEach (record_answer v i ip req old db).1
  unfolding find_rsvp first_answer with_texts merge_rsvp
  record_answer-OneEach none found h d =
      subst (Distinct (λ x. x.invitation_id)) (sym (rsvps-record_answer-none v i ip req db r h))
        (any_of_none (λ x. x.invitation_id == i.id) db.rsvps found, d)
  record_answer-OneEach (some old) found h d =
      subst (Distinct (λ x. x.invitation_id)) (sym (rsvps-record_answer-some v i ip req db old r h))
        (update_if-Distinct (λ x. x.invitation_id) (is_rsvp_of old.id old.tenant_id)
          (merge_rsvp (edit_by_guest (v.now 2) ip req old)) db.rsvps (λ x. refl) d)

-- After a submission that is accepted, in a store where each invitation has one answer at most,
-- the store holds this answer to the invitation, with no people if it says not attending, and
-- each invitation still has one answer at most.
pub submit_stored :
    (sha256 : String → String) (v : Env) (token : String) (req : RsvpRequest) (ip : String)
    (db : Db) (i : Invitation) (r : RsvpResponse)
    → OneEach db
    → find_invitation_by_hash (sha256 token) db ≡ some i
    → (submit sha256 v token req ip db).0 ≡ ok r
    → (stored_answer i.id (submit sha256 v token req ip db).1
        ≡ some (req.status, submitted_pax req, req.adults, req.children))
      × OneEach (submit sha256 v token req ip db).1
submit_stored sha256 v token req ip db i r d found h =
    let (alive, early, answered, whole) = submit_accepted sha256 v token req ip db i r found h in
    let (valid, in_max, on_time, room, rest) = answer_accepted v req ip db i r answered in
    let written : (record_answer v i ip req (find_rsvp i.id db) db).0 ≡ ok r =
      sym (ap (λ x. x.0) rest) ∙ answered in
    (
      ap (λ x. stored_answer i.id x.1) (whole ∙ rest)
          ∙ record_answer_stored v i ip req db r (find_rsvp i.id db) refl written,
      subst (λ x. OneEach x.1) (sym (whole ∙ rest))
          (record_answer-OneEach v i ip req db r (find_rsvp i.id db) refl written d),
    )
