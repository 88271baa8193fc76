-- ===== src/Rsvp/Capacity.antt =====
-- What `ValidateCapacity` and `Submit` of internal/service/rsvp_service.go keep.
use guestbook.Prelude.{
  ℕ, ◌<◌, ◌==◌, ◌^◌, ℤ, pos_part, neg_part, ◌+ℤ◌, ◌-ℤ◌, ◌≤ℤ◌, wrap_int, wrap_int_id, IsInt,
  int_laws, String, ◌≡◌, sym, ap, subst, ◌∙◌, inl, inr, true, false, none, some, arith,
  find_first-passes, update_if, All-find_first, Option-cases, sum_of, sum_of-update_if,
}
use guestbook.Action.{ok, Env, from}
use guestbook.Store.{
  is_attending, Event, Invitation, RsvpResponse, Db, find_event, find_invitation_by_hash,
}
use guestbook.Rsvp.Repo.{
  RsvpRequest, pax_of, sum_attending, find_rsvp, is_rsvp_of, merge_rsvp, with_texts,
}
use guestbook.Rsvp.Effect.{
  IsAnswered, rsvps-record_answer-none, rsvps-record_answer-some, answer_accepted, submit_accepted,
}
use guestbook.Rsvp.Service.{
  submit, validate_capacity, limit_of, counted_pax, submitted_pax, record_answer, check_attending,
  first_answer, edit_by_guest,
}

-- Far enough from the ends of an `int` that three of them add up. A column INTEGER holds less.
abbrev pub IsSmall : ℤ → Type 0
IsSmall a = (pos_part a < 2 ^ 61) × (neg_part a < 2 ^ 61)

minus-IsInt : (a b : ℤ) → IsSmall a → IsSmall b → IsInt (a -ℤ b)
unfolding ◌-ℤ◌
minus-IsInt a b ha hb = ground arith

total-IsInt : (a b c : ℤ) → IsSmall a → IsSmall b → IsSmall c → IsInt ((a -ℤ b) +ℤ c)
unfolding ◌-ℤ◌ ◌+ℤ◌
total-IsInt a b c ha hb hc = ground arith

-- The sum that `ValidateCapacity` computes does not wrap.
pub total_exact :
    (a b c : ℤ)
    → IsSmall a
    → IsSmall b
    → IsSmall c
    → wrap_int (wrap_int (a -ℤ b) +ℤ c) ≡ (a -ℤ b) +ℤ c
total_exact a b c ha hb hc =
    ap (λ x. wrap_int (x +ℤ c)) (wrap_int_id (a -ℤ b) (minus-IsInt a b ha hb))
    ∙ wrap_int_id ((a -ℤ b) +ℤ c) (total-IsInt a b c ha hb hc)

-- The sum after an answer of `pax` in place of one of `old`.
pub total_after : (sum old pax new : ℤ) → new +ℤ old ≡ sum +ℤ pax → new ≡ (sum -ℤ old) +ℤ pax
total_after sum old pax new h = grind int_laws

module _ (v : Env) (event tenant : ℕ) (pax : ℤ) (invitation : ℕ) (db : Db) where
  -- The capacity check that passes has compared the total with the limit.
  pub capacity_checked :
      (e : Event) (c : ℤ)
      → find_event event tenant db ≡ some e
      → limit_of e ≡ some c
      → v.down 2 ≡ false
      → IsSmall (sum_attending event db)
      → IsSmall (counted_pax false invitation db)
      → IsSmall pax
      → (validate_capacity v event tenant pax invitation db).0 ≡ ok tt
      → ((sum_attending event db -ℤ counted_pax false invitation db) +ℤ pax) ≤ℤ c
  unfolding validate_capacity
  capacity_checked e c found limit up hs hc hp h = ground (
    arith,
    found,
    limit,
    up,
    h,
    total_exact (sum_attending event db) (counted_pax false invitation db) pax hs hc hp,
  )

module _ (v : Env) (i : Invitation) (ip : String) (req : RsvpRequest) (db : Db)
    (r : RsvpResponse) where
  -- What recording an attending answer does to the event's sum.
  sum-record_answer-none :
      find_rsvp i.id db ≡ none
      → is_attending req.status ≡ true
      → (record_answer v i ip req none db).0 ≡ ok r
      → sum_attending i.event_id (record_answer v i ip req none db).1 +ℤ counted_pax false i.id db
        ≡ sum_attending i.event_id db +ℤ submitted_pax req
  unfolding sum_attending sum_of first_answer
  sum-record_answer-none missing going h =
      grind (int_laws, missing, going, rsvps-record_answer-none v i ip req db r h)

  sum-record_answer-some :
      (old : RsvpResponse)
      → IsAnswered db
      → find_rsvp i.id db ≡ some old
      → old.event_id ≡ i.event_id
      → is_attending req.status ≡ true
      → (record_answer v i ip req (some old) db).0 ≡ ok r
      → sum_attending i.event_id (record_answer v i ip req (some old) db).1
          +ℤ counted_pax false i.id db
        ≡ sum_attending i.event_id db +ℤ submitted_pax req
  unfolding sum_attending find_rsvp edit_by_guest with_texts merge_rsvp
  sum-record_answer-some old w found same going h =
      let edited = edit_by_guest (v.now 2) ip req old in
      let whole =
        sum_of-update_if (pax_of i.event_id) (λ (x : RsvpResponse). x.id)
          (is_rsvp_of old.id old.tenant_id) (λ x. x.invitation_id == i.id) (merge_rsvp edited)
          db.rsvps old w.ids found (ground arith) (λ x q. ground arith) in
      let before : counted_pax false i.id db ≡ pax_of i.event_id old =
        ground (arith, found, same) in
      let after : pax_of i.event_id (merge_rsvp edited old) ≡ submitted_pax req =
        ground (arith, same, going) in
      ap (λ x. x +ℤ counted_pax false i.id db)
        (ap (sum_of (pax_of i.event_id)) (rsvps-record_answer-some v i ip req db old r h))
      ∙ ap
          (λ x.
            sum_of (pax_of i.event_id)
              (update_if (is_rsvp_of old.id old.tenant_id) (merge_rsvp edited) db.rsvps)
            +ℤ x)
          before
      ∙ whole
      ∙ ap (λ x. sum_attending i.event_id db +ℤ x) after

  sum-record_answer :
      IsAnswered db
      → ((old : RsvpResponse) → find_rsvp i.id db ≡ some old → old.event_id ≡ i.event_id)
      → is_attending req.status ≡ true
      → (record_answer v i ip req (find_rsvp i.id db) db).0 ≡ ok r
      → sum_attending i.event_id (record_answer v i ip req (find_rsvp i.id db) db).1
          +ℤ counted_pax false i.id db
        ≡ sum_attending i.event_id db +ℤ submitted_pax req
  sum-record_answer w owned going h = elim (Option-cases (find_rsvp i.id db)) [
    | inl missing ↦
        let h' : (record_answer v i ip req none db).0 ≡ ok r =
          subst (λ x. (record_answer v i ip req x db).0 ≡ ok r) missing h in
        ap
          (λ x.
            sum_attending i.event_id (record_answer v i ip req x db).1 +ℤ counted_pax false i.id db)
          missing
        ∙ sum-record_answer-none missing going h'
    | inr (old, found) ↦
        let h' : (record_answer v i ip req (some old) db).0 ≡ ok r =
          subst (λ x. (record_answer v i ip req x db).0 ≡ ok r) found h in
        ap
          (λ x.
            sum_attending i.event_id (record_answer v i ip req x db).1 +ℤ counted_pax false i.id db)
          found
        ∙ sum-record_answer-some old w found (owned old found) going h'
  ]

-- The answer to an invitation is one for its event.
pub owned_by_invitation :
    (sha256 : String → String) (token : String) (db : Db) (i : Invitation)
    → IsAnswered db
    → find_invitation_by_hash (sha256 token) db ≡ some i
    → (old : RsvpResponse) → find_rsvp i.id db ≡ some old
    → old.event_id ≡ i.event_id
unfolding find_invitation_by_hash find_rsvp
owned_by_invitation sha256 token db i w found old there =
    let owned = All-find_first _ (λ x. x.invitation_id == i.id) db.rsvps old w.owned there in
    let same : old.invitation_id ≡ i.id =
      ground (arith, find_first-passes (λ x. x.invitation_id == i.id) db.rsvps old there) in
    (All-find_first _ _ db.invitations i owned found same).0

-- In a store where ids are keys and each answer is for its invitation's event: a submission that
-- says attending, and is accepted, leaves the sum of the event's attending people within the
-- event's capacity, when the event has one above 0, the query for the present answer did not
-- fail, and the numbers in the store and in the request are below 2 ^ 61 in size.
pub submit-within_capacity :
    (sha256 : String → String) (v : Env) (token : String) (req : RsvpRequest) (ip : String)
    (db : Db) (i : Invitation) (e : Event) (c : ℤ) (r : RsvpResponse)
    → IsAnswered db
    → find_invitation_by_hash (sha256 token) db ≡ some i
    → find_event i.event_id i.tenant_id db ≡ some e
    → limit_of e ≡ some c
    → v.down 4 ≡ false
    → IsSmall (sum_attending i.event_id db)
    → IsSmall (counted_pax false i.id db)
    → IsSmall (submitted_pax req)
    → is_attending req.status ≡ true
    → (submit sha256 v token req ip db).0 ≡ ok r
    → sum_attending i.event_id (submit sha256 v token req ip db).1 ≤ℤ c
submit-within_capacity sha256 v token req ip db i e c r w found event limit up hs hc hp going h =
    let (alive, early, answered, whole) = submit_accepted sha256 v token req ip db i r found h in
    let (valid, in_max, on_time, room, rest) = answer_accepted v req ip db i r answered in
    let db' = (submit sha256 v token req ip db).1 in
    let passed : (validate_capacity (from 2 v) i.event_id i.tenant_id (submitted_pax req) i.id db).0
        ≡ ok tt =
      subst
        (λ b.
          (check_attending (from 2 v) i.event_id i.tenant_id (submitted_pax req) i.id b db).0
          ≡ ok tt)
        going room in
    let checked =
      capacity_checked (from 2 v) i.event_id i.tenant_id (submitted_pax req) i.id db e c event limit
        up hs hc hp passed in
    let written : (record_answer v i ip req (find_rsvp i.id db) db).0 ≡ ok r =
      sym (ap (λ x. x.0) rest) ∙ answered in
    let sums : sum_attending i.event_id db' +ℤ counted_pax false i.id db
        ≡ sum_attending i.event_id db +ℤ submitted_pax req =
      ap (λ x. sum_attending i.event_id x.1 +ℤ counted_pax false i.id db) (whole ∙ rest)
      ∙ sum-record_answer v i ip req db r w (owned_by_invitation sha256 token db i w found) going
          written in
    subst (λ x. x ≤ℤ c)
      (sym (
        total_after (sum_attending i.event_id db) (counted_pax false i.id db) (submitted_pax req)
          (sum_attending i.event_id db') sums))
      checked
