-- ===== src/Invite/Batch.antt =====
-- What the loop of `GenerateBatch` (internal/service/invitation_service.go) keeps.
use guestbook.Prelude.{
  ℕ, ◌+◌, ◌*◌, suc, ◌==◌, ltb, ◌≡◌, refl, false, List, [], ◌∷◌, subst, sym, ap, ◌∙◌, arith, any,
  inl, inr, length, any-update_if,
}
use guestbook.Action.{
  event_not_found, Action, Env, from, invalid_input, bind_keeps, raise_if, raise_if_read_only,
  ◌>>=◌, ◌>>◌, Result-cases,
}
use guestbook.Store.{
  Event, Invitation, Db, is_invitation_of, get_event, find_event, select_one_read_only,
}
use guestbook.Invite.Service.{
  Links, InvitationCreateRequest, takes_no_invitations, create_invitation, create_each,
  generate_batch, batch_result,
}
use guestbook.Invite.Effect.{Effect, same, added, changed, answered}

-- An id that a call does not draw stays unused.
pub Effect-unused :
    (c : Links) (v : Env) (s t : Db) (id : ℕ)
    → Effect c v s t
    → (v.fresh 1 == id) ≡ false
    → any (λ x. x.id == id) s.invitations ≡ false
    → any (λ x. x.id == id) t.invitations ≡ false
unfolding any
Effect-unused c v s t id (same e) other h = rw e h
Effect-unused c v s t id (added i token drawn hashed own none_yet whole) other h =
    rw whole (ground (arith, own, other, h))
Effect-unused c v s t id (changed p f keeps whole) other h =
    rw whole
      (any-update_if (λ x. x.id == id) p f s.invitations (λ x. ap (λ n. n == id) (keeps.ids x)) ∙ h)
Effect-unused c v s t id (answered i hash now found alive whole) other h = rw whole (
    any-update_if (λ x. x.id == id) (is_invitation_of i.id i.tenant_id) _ s.invitations (λ x. refl)
    ∙ h)

-- What one creation keeps, the loop and the call around it keep too.
module _ (c : Links) (v : Env) (tenant event by : ℕ) (req : InvitationCreateRequest) where
  each_next :
      (k guest : ℕ) (guests : List ℕ) (db : Db)
      → (create_each c v tenant event by req k (guest ∷ guests) db).1
        ≡ (create_each c v tenant event by req
            (suc k)
            guests
            (create_invitation c (from (1 + 6 * k) v) tenant event by req guest db).1).1
  unfolding create_each
  each_next k guest guests db =
      elim (Result-cases
        (create_invitation c (from (1 + 6 * k) v) tenant event by req guest db).0) [
          | inl (i, made) ↦ ground (arith, made)
          | inr (e, failed) ↦ ground (arith, failed)
        ]

  keeps_each :
      (P : ℕ → Db → Type 0)
      → ((k guest : ℕ) (db : Db)
          → P k db
          → P (suc k) (create_invitation c (from (1 + 6 * k) v) tenant event by req guest db).1)
      → (k : ℕ) (guests : List ℕ) (db : Db) → P k db
      → (n : ℕ) × P n (create_each c v tenant event by req k guests db).1
  unfolding create_each
  keeps_each P one k [] db h = (k, h)
  keeps_each P one k (guest ∷ guests) db h =
      let made = (create_invitation c (from (1 + 6 * k) v) tenant event by req guest db).1 in
      let (n, rest) = keeps_each P one (suc k) guests made (one k guest db h) in
      (n, subst (P n) (sym (each_next k guest guests db)) rest)

  pub keeps_batch :
      (P : ℕ → Db → Type 0)
      → ((k guest : ℕ) (db : Db)
          → P k db
          → P (suc k) (create_invitation c (from (1 + 6 * k) v) tenant event by req guest db).1)
      → (Q : Db → Type 0) → ((k : ℕ) (db : Db) → P k db → Q db)
      → (db : Db) → P 0 db
      → Q (generate_batch c v tenant event by req db).1
  unfolding generate_batch
  keeps_batch P one Q last db h =
      let made : Action Db (List Invitation) = λ t.
        let (m, t') = create_each c v tenant event by req 0 req.guest_ids t in
        (batch_result m, t') in
      let rest : Event → Action Db (List Invitation) =
        λ e. raise_if (takes_no_invitations e.status) invalid_input >> made in
      let big : Action Db (Unit {0}) = raise_if (ltb 500 (length req.guest_ids)) invalid_input in
      bind_keeps Q (raise_if (ltb (length req.guest_ids) 1) invalid_input)
        (λ _. big >> (get_event (v.down 0) event tenant >>= rest)) db
        (raise_if_read_only (ltb (length req.guest_ids) 1) invalid_input db) (last 0 db h)
        (λ _ _.
          bind_keeps Q big (λ _. get_event (v.down 0) event tenant >>= rest) db
            (raise_if_read_only (ltb 500 (length req.guest_ids)) invalid_input db) (last 0 db h)
            (λ _ _.
              bind_keeps Q (get_event (v.down 0) event tenant) rest db
                (select_one_read_only (v.down 0) (find_event event tenant) event_not_found db)
                (last 0 db h)
                (λ e _.
                  bind_keeps Q (raise_if (takes_no_invitations e.status) invalid_input) (λ _. made)
                    db (raise_if_read_only (takes_no_invitations e.status) invalid_input db)
                    (last 0 db h)
                    (λ _ _.
                      let (n, done) = keeps_each P one 0 req.guest_ids db h in last n _ done))))
