-- ===== src/Invite/Calls.antt =====
-- The calls that write invitations, one after the other: internal/service/invitation_service.go,
-- and `Submit` of internal/service/rsvp_service.go.
use guestbook.Prelude.{
  ℕ, ◌+◌, ◌*◌, suc, ◌==◌, ◌≤◌, String, str_eq, ◌≡◌, true, false, List, [], ◌∷◌, Bool-cases, arith,
  any, inl, inr,
}
use guestbook.Action.{Env, from, ok}
use guestbook.Store.{Db}
use guestbook.Rsvp.Repo.{RsvpRequest}
use guestbook.Rsvp.Service.{submit}
use guestbook.Invite.Service.{
  Links, InvitationCreateRequest, create_invitation, generate_batch, revoke_for, delete_invitation,
  record_open,
}
use guestbook.Invite.Effect.{create-Effect, revoke-Effect, delete-Effect, open-Effect}
use guestbook.Invite.Batch.{Effect-unused, keeps_batch}
use guestbook.Invite.Answers.{submit-Effect}
use guestbook.Invite.Once.{OneEach, AreClosed, Effect-OneEach, Effect-AreClosed}

pub data Call : Type 0 where
  inviting : ℕ → ℕ → ℕ → InvitationCreateRequest → ℕ → Call
  inviting_all : ℕ → ℕ → ℕ → InvitationCreateRequest → Call
  revoking : ℕ → ℕ → ℕ → String → Call
  deleting : ℕ → ℕ → Call
  opening : String → String → Call
  answering : String → RsvpRequest → String → Call

pub record Request : Type 0 where
  pub env : Env
  pub call : Call

unfoldable pub perform : Links → Env → Call → Db → Db
perform c v (inviting tenant event by req guest) db =
    (create_invitation c v tenant event by req guest db).1
perform c v (inviting_all tenant event by req) db = (generate_batch c v tenant event by req db).1
perform c v (revoking tenant id by reason) db = (revoke_for v tenant id by reason db).1
perform c v (deleting tenant id) db = (delete_invitation v tenant id db).1
perform c v (opening token ip) db = (record_open c v token ip db).1
perform c v (answering token req ip) db = (submit c.sha256 v token req ip db).1

unfoldable pub serve_all : Links → List Request → Db → Db
serve_all c [] db = db
serve_all c (r ∷ rs) db = serve_all c rs (perform c r.env r.call db)

-- What is drawn during a request: ids that no invitation has, none twice, and no token with the
-- hash.
pub record IsNew (c : Links) (hash : String) (v : Env) (db : Db) : Type 0 where
  pub unused : (k : ℕ) → any (λ x. x.id == v.fresh k) db.invitations ≡ false
  pub apart : (j k : ℕ) → (v.fresh j == v.fresh k) ≡ true → j ≡ k
  pub tokens :
      (k : ℕ) (token : String)
      → c.random_token (v.fresh k) ≡ ok token
      → str_eq (c.sha256 token) hash ≡ false

unfoldable pub AreNew : Links → String → List Request → Db → Type 0
AreNew c hash [] db = Unit
AreNew c hash (r ∷ rs) db = IsNew c hash r.env db × AreNew c hash rs (perform c r.env r.call db)

module _ (c : Links) where
  batch-OneEach :
      (v : Env) (tenant event by : ℕ) (req : InvitationCreateRequest) (db : Db)
      → OneEach db
      → OneEach (generate_batch c v tenant event by req db).1
  batch-OneEach v tenant event by req db h =
      keeps_batch c v tenant event by req (λ _ t. OneEach t)
        (λ k guest t one.
          Effect-OneEach c (from (1 + 6 * k) v) t _
            (create-Effect c (from (1 + 6 * k) v) t tenant event by req guest) one)
        OneEach (λ _ _ one. one) db h

  perform-OneEach : (v : Env) (call : Call) (db : Db) → OneEach db → OneEach (perform c v call db)
  unfolding perform
  perform-OneEach v (inviting tenant event by req guest) db h =
      Effect-OneEach c v db _ (create-Effect c v db tenant event by req guest) h
  perform-OneEach v (inviting_all tenant event by req) db h =
      batch-OneEach v tenant event by req db h
  perform-OneEach v (revoking tenant id by reason) db h =
      Effect-OneEach c v db _ (revoke-Effect c v db tenant id by reason) h
  perform-OneEach v (deleting tenant id) db h =
      Effect-OneEach c v db _ (delete-Effect c v db tenant id) h
  perform-OneEach v (opening token ip) db h =
      Effect-OneEach c v db _ (open-Effect c v db token ip) h
  perform-OneEach v (answering token req ip) db h =
      Effect-OneEach c v db _ (submit-Effect c v db token req ip) h

  -- From a store where each guest has at most one invitation to each event that is not deleted,
  -- this stays so over every sequence of creations, batches, revocations, deletions, openings and
  -- answers, with any of their statements failing.
  pub one_invitation_each : (rs : List Request) (db : Db) → OneEach db → OneEach (serve_all c rs db)
  unfolding serve_all
  one_invitation_each [] db h = h
  one_invitation_each (r ∷ rs) db h =
      one_invitation_each rs (perform c r.env r.call db) (perform-OneEach r.env r.call db h)

  module _ (hash : String) where
    -- The state of a batch before its k-th creation.
    abbrev AreReady : Env → ℕ → Db → Type 0
    AreReady v k t =
        AreClosed hash t
        × ((n : ℕ) → k ≤ n → any (λ x. x.id == v.fresh (1 + 6 * n + 1)) t.invitations ≡ false)

    differ :
        {db : Db} (v : Env)
        → IsNew c hash v db
        → (k n : ℕ) → suc k ≤ n
        → (v.fresh (1 + 6 * k + 1) == v.fresh (1 + 6 * n + 1)) ≡ false
    differ v new k n later =
        elim (Bool-cases (v.fresh (1 + 6 * k + 1) == v.fresh (1 + 6 * n + 1))) [
          | inl e ↦ absurd (omega (arith, later, new.apart (1 + 6 * k + 1) (1 + 6 * n + 1) e))
          | inr e ↦ e
        ]

    batch-AreClosed :
        (v : Env) (tenant event by : ℕ) (req : InvitationCreateRequest) (db : Db)
        → IsNew c hash v db
        → AreClosed hash db
        → AreClosed hash (generate_batch c v tenant event by req db).1
    batch-AreClosed v tenant event by req db new h =
        keeps_batch c v tenant event by req (AreReady v)
          (λ k guest t ready.
            let w = from (1 + 6 * k) v in
            let effect = create-Effect c w t tenant event by req guest in
            (
              Effect-AreClosed hash c w t _ (ready.1 k (omega arith)) (new.tokens (1 + 6 * k + 0))
                  effect ready.0,
              λ n later.
                  Effect-unused c w t _ (v.fresh (1 + 6 * n + 1)) effect (differ v new k n later)
                    (ready.1 n (omega (arith, later))),
            ))
          (AreClosed hash) (λ _ _ ready. ready.0) db (h, λ n _. new.unused (1 + 6 * n + 1))

    perform-AreClosed :
        (v : Env) (call : Call) (db : Db)
        → IsNew c hash v db
        → AreClosed hash db
        → AreClosed hash (perform c v call db)
    unfolding perform
    perform-AreClosed v (inviting_all tenant event by req) db new h =
        batch-AreClosed v tenant event by req db new h
    perform-AreClosed v (inviting tenant event by req guest) db new h =
        Effect-AreClosed hash c v db _ (new.unused 1) (new.tokens 0)
          (create-Effect c v db tenant event by req guest) h
    perform-AreClosed v (revoking tenant id by reason) db new h =
        Effect-AreClosed hash c v db _ (new.unused 1) (new.tokens 0)
          (revoke-Effect c v db tenant id by reason) h
    perform-AreClosed v (deleting tenant id) db new h =
        Effect-AreClosed hash c v db _ (new.unused 1) (new.tokens 0)
          (delete-Effect c v db tenant id) h
    perform-AreClosed v (opening token ip) db new h =
        Effect-AreClosed hash c v db _ (new.unused 1) (new.tokens 0) (open-Effect c v db token ip) h
    perform-AreClosed v (answering token req ip) db new h =
        Effect-AreClosed hash c v db _ (new.unused 1) (new.tokens 0)
          (submit-Effect c v db token req ip) h

    -- An invitation that is closed stays so, whatever is served.
    pub serve_all-AreClosed :
        (rs : List Request) (db : Db)
        → AreNew c hash rs db
        → AreClosed hash db
        → AreClosed hash (serve_all c rs db)
    unfolding serve_all AreNew
    serve_all-AreClosed [] db new h = h
    serve_all-AreClosed (r ∷ rs) db new h =
        serve_all-AreClosed rs (perform c r.env r.call db) new.1
          (perform-AreClosed r.env r.call db new.0 h)
