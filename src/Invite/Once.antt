-- ===== src/Invite/Once.antt =====
-- What every history of the calls of internal/service/invitation_service.go, and of answers by
-- internal/service/rsvp_service.go, keeps of the stored invitations.
use guestbook.Prelude.{
  ℕ, ◌==◌, ◌≤◌, String, str_eq, ◌≡◌, refl, Bool, true, false, not, ◌&&◌, ◌||◌, arith, any, All,
  count_if, Distinct, All-find_first, All-update_found, All-update_if, count_if-update_if-le,
  update_if-Distinct, find_first-passes,
}
use guestbook.Action.{Env, ok}
use guestbook.Store.{
  InvitationStatus, is_revoked, Invitation, Db, is_null, is_invitation_of, find_invitation_by_hash,
}
use guestbook.Invite.Repo.{is_live_for}
use guestbook.Invite.Service.{Links}
use guestbook.Invite.Effect.{Effect, same, added, changed, answered, Keeps}

-- At most one invitation that is not deleted, for each event and guest.
abbrev pub OneEach : Db → Type 0
OneEach db = (event guest : ℕ) → count_if (is_live_for event guest) db.invitations ≤ 1

-- An invitation with the hash is revoked or deleted.
abbrev pub IsClosed : String → Invitation → Type 0
IsClosed hash i =
    str_eq i.token_hash hash ≡ true → (is_revoked i.status || not (is_null i.deleted_at)) ≡ true

abbrev id_of : Invitation → ℕ
id_of i = i.id

-- Ids are keys, and no invitation with the hash is open.
pub record AreClosed (hash : String) (db : Db) : Type 0 where
  pub ids : Distinct (λ (i : Invitation). i.id) db.invitations
  pub closed : All (IsClosed hash) db.invitations

pub Effect-OneEach : (c : Links) (v : Env) (s t : Db) → Effect c v s t → OneEach s → OneEach t
unfolding count_if
Effect-OneEach c v s t (same e) h event guest = rw e (h event guest)
Effect-OneEach c v s t (added i token drawn hash id none_yet whole) h event guest =
    rw whole (ground (arith, h event guest, none_yet))
Effect-OneEach c v s t (changed p f keeps whole) h event guest =
    let fewer =
      count_if-update_if-le (is_live_for event guest) p f s.invitations
        (λ x live. ground (arith, live, keeps.events x, keeps.guests x, keeps.live x)) in
    rw whole (omega (arith, fewer, h event guest))
Effect-OneEach c v s t (answered i hash now found alive whole) h event guest =
    let fewer =
      count_if-update_if-le (is_live_for event guest) (is_invitation_of i.id i.tenant_id)
        (λ x. record x { status = InvitationStatus.responded; updated_at = now }) s.invitations
        (λ x live. live) in
    rw whole (omega (arith, fewer, h event guest))

Keeps-IsClosed :
    (hash : String) (f : Invitation → Invitation) (x : Invitation)
    → Keeps f
    → IsClosed hash x
    → IsClosed hash (f x)
Keeps-IsClosed hash f x keeps h named =
    ground (arith, h, named, keeps.hashes x, keeps.live x, keeps.revoked x)

pub Effect-AreClosed :
    (hash : String) (c : Links) (v : Env) (s t : Db)
    → any (λ x. x.id == v.fresh 1) s.invitations ≡ false
    → ((token : String)
        → c.random_token (v.fresh 0) ≡ ok token
        → str_eq (c.sha256 token) hash ≡ false)
    → Effect c v s t
    → AreClosed hash s
    → AreClosed hash t
unfolding find_invitation_by_hash
Effect-AreClosed hash c v s t new fresh (same e) h = record {
  ids = rw e h.ids;
  closed = rw e h.closed;
}
Effect-AreClosed hash c v s t new fresh (added i token drawn hashed id _ whole) h = record {
  ids = rw (whole, id) (new, h.ids);
  closed = rw whole (λ named. absurd (ground (arith, named, hashed, fresh token drawn)), h.closed);
}
Effect-AreClosed hash c v s t new fresh (changed p f keeps whole) h = record {
  ids = rw whole (update_if-Distinct (λ x. x.id) p f s.invitations keeps.ids h.ids);
  closed = rw whole (
      All-update_if (IsClosed hash) (IsClosed hash) p f s.invitations
        (λ x _. Keeps-IsClosed hash f x keeps) (λ x _ k. k) h.closed);
}
Effect-AreClosed hash c v s t new fresh (answered i hash' now found alive whole) h =
    let f : Invitation → Invitation =
      λ x. record x { status = InvitationStatus.responded; updated_at = now } in
    let p = is_invitation_of i.id i.tenant_id in
    let q : Invitation → Bool = λ x. str_eq x.token_hash hash' && is_null x.deleted_at in
    let passes : q i ≡ true = find_first-passes q s.invitations i found in
    let was : IsClosed hash i = All-find_first (IsClosed hash) q s.invitations i h.closed found in
    record {
      ids = rw whole (update_if-Distinct (λ x. x.id) p f s.invitations (λ x. refl) h.ids);
      closed = rw whole (
          All-update_found (IsClosed hash) (λ x. x.id) p q f s.invitations i h.ids found
            (λ x hit. ground (arith, hit))
            (λ named. absurd (ground (arith, passes, alive, was named))) h.closed);
    }
