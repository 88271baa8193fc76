-- ===== src/Invite/Effect.antt =====
-- What each call of internal/service/invitation_service.go, and an answer by
-- internal/service/rsvp_service.go, makes of the stored invitations.
use guestbook.Prelude.{
  ℕ, ltb, String, is_empty, ◌≡◌, refl, Bool, true, false, not, ◌&&◌, some, ◌∷◌, inl, inr, arith,
  any, update_if, count_if, Bool-cases, Option-cases,
}
use guestbook.Action.{Env, ok, Result-cases}
use guestbook.Store.{
  InvitationStatus, is_revoked, Invitation, Db, is_null, is_invitation_of, find_invitation_by_hash,
  find_event, find_guest, find_event_guest, Event, log_with_user,
}
use guestbook.Rsvp.Service.{is_past}
use guestbook.Invite.Repo.{
  is_live_for, is_live_id, as_revoked, as_deleted, as_opened, find_invitation_by_id, opened_status,
  insert_invitation, exists_for_guest, revoke_invitation, soft_delete_invitation, mark_opened,
  log_credential_usage,
}
use guestbook.Invite.Service.{
  takes_no_invitations, Links, InvitationCreateRequest, create_invitation, new_invitation,
  validate_invitation, revoke_for, delete_invitation, record_open,
}

-- A change of a row that names the same guest and token, and neither revives nor restores it.
pub record Keeps (f : Invitation → Invitation) : Type 0 where
  pub ids : (x : Invitation) → (f x).id ≡ x.id
  pub hashes : (x : Invitation) → (f x).token_hash ≡ x.token_hash
  pub events : (x : Invitation) → (f x).event_id ≡ x.event_id
  pub guests : (x : Invitation) → (f x).guest_id ≡ x.guest_id
  pub live : (x : Invitation) → is_null (f x).deleted_at ≡ true → is_null x.deleted_at ≡ true
  pub revoked : (x : Invitation) → is_revoked x.status ≡ true → is_revoked (f x).status ≡ true

-- The ways in which a call ends.
pub data Effect (c : Links) (v : Env) (s t : Db) : Type 0 where
  same : t.invitations ≡ s.invitations → Effect c v s t
  added :
      (i : Invitation) (token : String)
      → c.random_token (v.fresh 0) ≡ ok token
      → i.token_hash ≡ c.sha256 token
      → i.id ≡ v.fresh 1
      → ltb 0 (count_if (is_live_for i.event_id i.guest_id) s.invitations) ≡ false
      → t.invitations ≡ i ∷ s.invitations
      → Effect c v s t
  changed :
      (p : Invitation → Bool) (f : Invitation → Invitation)
      → Keeps f
      → t.invitations ≡ update_if p f s.invitations
      → Effect c v s t
  answered :
      (i : Invitation) (hash : String) (now : ℕ)
      → find_invitation_by_hash hash s ≡ some i
      → is_revoked i.status ≡ false
      → t.invitations
        ≡ update_if
            (is_invitation_of i.id i.tenant_id)
            (λ x. record x { status = InvitationStatus.responded; updated_at = now })
            s.invitations
      → Effect c v s t

opened-revoked : (s : InvitationStatus) → is_revoked s ≡ true → is_revoked (opened_status s) ≡ true
opened-revoked InvitationStatus.sent h = absurd (ground (arith, h))
opened-revoked InvitationStatus.draft h = h
opened-revoked InvitationStatus.opened h = h
opened-revoked InvitationStatus.responded h = h
opened-revoked InvitationStatus.expired h = h
opened-revoked InvitationStatus.failed h = h
opened-revoked InvitationStatus.revoked h = h
opened-revoked (InvitationStatus.other t) h = h

-- What `Create` tests before it looks for an invitation of the guest.
abbrev may_create : Env → Event → Bool
may_create v e =
    not (v.down 0)
    && (not (takes_no_invitations e.status)
        && (not (v.down 1) && (not (v.down 2) && (not (v.down 3) && not (v.down 4)))))

-- What `RecordOpen` tests.
abbrev may_open : Env → String → Invitation → Bool
may_open v token i =
    not (is_empty token)
    && (not (v.down 0)
        && (not (is_revoked i.status)
            && (is_null i.deleted_at && (not (is_past (v.now 0) i.expires_at) && not (v.down 1)))))

module _ (c : Links) (v : Env) (db : Db) where
  pub create-Effect :
      (tenant event by : ℕ) (req : InvitationCreateRequest) (guest : ℕ)
      → Effect c v db (create_invitation c v tenant event by req guest db).1
  unfolding create_invitation exists_for_guest insert_invitation log_with_user new_invitation
  create-Effect tenant event by req guest = elim (Option-cases (find_event event tenant db)) [
    | inl gone ↦ same (ground (arith, gone))
    | inr (e, found) ↦ elim (Option-cases (find_guest tenant guest db)) [
      | inl gone ↦ same (ground (arith, found, gone))
      | inr (g, known) ↦ elim (Option-cases (find_event_guest tenant event guest db)) [
        | inl gone ↦ same (ground (arith, found, known, gone))
        | inr (eg, listed) ↦ elim (Result-cases (c.random_token (v.fresh 0))) [
          | inr (x, failed) ↦ same (ground (arith, found, known, listed, failed))
          | inl (token, drawn) ↦
              elim (Bool-cases (
                may_create v e
                && not (ltb 0 (count_if (is_live_for event guest) db.invitations)))) [
                  | inr bad ↦ same (ground (arith, found, known, listed, drawn, bad))
                  | inl good ↦
                      added (new_invitation c v tenant event by req guest eg.id token) token drawn
                        refl refl (ground (arith, good))
                        (ground (arith, found, known, listed, drawn, good))
                ]
        ]
      ]
    ]
  ]

  pub revoke-Effect :
      (tenant id by : ℕ) (reason : String) → Effect c v db (revoke_for v tenant id by reason db).1
  unfolding revoke_for revoke_invitation log_with_user find_invitation_by_id
  revoke-Effect tenant id by reason = elim (Option-cases (find_invitation_by_id id tenant db)) [
    | inl gone ↦ same (ground (arith, gone))
    | inr (i, found) ↦
        elim (Bool-cases (
          not (v.down 0)
          && (not (is_revoked i.status)
              && (not (v.down 1) && any (is_invitation_of id tenant) db.invitations)))) [
                | inr bad ↦ same (ground (arith, found, bad))
                | inl good ↦
                    changed (is_invitation_of id tenant) (as_revoked (v.now 0) by reason)
                      (record {
                        ids = λ x. refl;
                        hashes = λ x. refl;
                        events = λ x. refl;
                        guests = λ x. refl;
                        live = λ x h. h;
                        revoked = λ x h. refl;
                      })
                      (ground (arith, found, good))
              ]
  ]

  pub delete-Effect : (tenant id : ℕ) → Effect c v db (delete_invitation v tenant id db).1
  unfolding delete_invitation soft_delete_invitation
  delete-Effect tenant id =
      elim (Bool-cases (not (v.down 0) && any (is_invitation_of id tenant) db.invitations)) [
        | inr bad ↦ same (ground (arith, bad))
        | inl good ↦
            changed (is_invitation_of id tenant) (as_deleted (v.now 0))
              (record {
                ids = λ x. refl;
                hashes = λ x. refl;
                events = λ x. refl;
                guests = λ x. refl;
                live = λ x h. absurd (ground (arith, h));
                revoked = λ x h. refl;
              })
              (ground (arith, good))
      ]

  pub open-Effect : (token ip : String) → Effect c v db (record_open c v token ip db).1
  unfolding record_open mark_opened log_credential_usage validate_invitation
  open-Effect token ip = elim (Option-cases (find_invitation_by_hash (c.sha256 token) db)) [
    | inl gone ↦ same (ground (arith, gone))
    | inr (i, found) ↦ elim (Bool-cases (may_open v token i)) [
      | inr bad ↦ same (ground (arith, found, bad))
      | inl good ↦
          changed (is_live_id i.id) (as_opened (v.now 1))
            (record {
              ids = λ x. refl;
              hashes = λ x. refl;
              events = λ x. refl;
              guests = λ x. refl;
              live = λ x h. h;
              revoked = λ x h. opened-revoked x.status h;
            })
            (ground (arith, found, good))
    ]
  ]
