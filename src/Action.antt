-- ===== src/Action.antt =====
-- What every service method is built from: the errors of the domain packages as values, a call
-- that may fail and change the store, and the environment that a request runs in.
--
-- `fmt.Errorf("...: %w", err)` keeps what `errors.Is` finds, so a wrapped error is the error itself.
use guestbook.Prelude.{
  ℕ, ◌+◌, ◌≡◌, refl, sym, ap, subst, ◌∙◌, ◌⊎◌, inl, inr, String, Bool, true, false, Option, none,
  some,
}

pub data Error : Type 0 where
  not_found already_exists forbidden invalid_input : Error
  invalid_role membership_not_found cannot_remove_owner owner_role_immutable : Error
  event_not_found event_invalid_status_transition event_cannot_modify event_cannot_delete : Error
  quota_exceeded : Error
  rsvp_not_found rsvp_deadline_passed event_at_capacity invalid_rsvp_status : Error
  token_invalid invitation_not_found invitation_revoked invitation_expired : Error
  tenant_not_found user_not_found invalid_notification_signature : Error
  invalid_token token_expired : Error
  -- The errors that internal/service/auth_service.go declares.
  email_exists invalid_credentials password_invalid user_inactive : Error
  sign_in_token_invalid email_not_verified email_delivery profile_not_found : Error
  template_not_found campaign_not_found message_not_found invalid_channel : Error
  invalid_message_type template_inactive empty_recipient_list campaign_started : Error
  rsvp_reminder_throttled whatsapp_not_configured : Error
  -- The database's or another library's error.
  database : Error
  -- An error of `errors.New` or `fmt.Errorf` that wraps none of these.
  unspecified : String → Error

pub data Result (A : Type 0) : Type 0 where
  ok : A → Result A
  err : Error → Result A

-- A call on a store: the store comes back after an error too, since what was written stays.
abbrev pub Action : Type 0 → Type 0 → Type 0
Action S A = S → Result A × S

module _ {S A : Type 0} where
  abbrev pub pure : A → Action S A
  pure a s = (ok a, s)

  abbrev pub raise : Error → Action S A
  raise e s = (err e, s)

  -- A read that the store decides.
  abbrev pub gets : (S → A) → Action S A
  gets f s = (ok (f s), s)

  abbrev pub or_raise : Option A → Error → Action S A
  or_raise none e s = (err e, s)
  or_raise (some a) e s = (ok a, s)

infixl 5 ◌>>=◌ ◌>>◌
abbrev pub ◌>>=◌ : {S A B : Type 0} → Action S A → (A → Action S B) → Action S B
◌>>=◌ m f s = let (r, s') = m s in elim r [ ok a ↦ f a s' | err e ↦ (err e, s') ]

abbrev pub ◌>>◌ : {S A B : Type 0} → Action S A → Action S B → Action S B
m >> k = m >>= λ _. k

module _ {S : Type 0} where
  -- `if test { return err }`
  abbrev pub raise_if : Bool → Error → Action S (Unit {0})
  raise_if true e s = (err e, s)
  raise_if false e s = (ok tt, s)

  abbrev pub modify : (S → S) → Action S (Unit {0})
  modify f s = (ok tt, f s)

-- `_ = call()`: the error is dropped, the effect stays.
abbrev pub ignore : {S A : Type 0} → Action S A → Action S (Unit {0})
ignore m s = (ok tt, (m s).1)

-- The result of a call as a value: `x, err := call()`, before `err` is tested.
abbrev pub attempt : {S A : Type 0} → Action S A → Action S (Result A)
attempt m s = (ok (m s).0, (m s).1)

-- `if err != nil { return e }`: any error becomes another one.
abbrev pub or_error : {S A : Type 0} → Action S A → Error → Action S A
or_error m e s = let (r, s') = m s in elim r [ ok a ↦ (ok a, s') | err x ↦ (err e, s') ]

-- `errors.Is(err, domain.ErrNotFound)`
abbrev pub is_not_found : Error → Bool
is_not_found not_found = true
is_not_found _ = false

-- What the outside decides during one request: whether the k-th statement sent to PostgreSQL
-- fails (a lost connection, a violated constraint), the k-th reading of the clock, and the k-th
-- identifier that `uuid.New` draws.
pub record Env : Type 0 where
  pub down : ℕ → Bool
  pub now : ℕ → ℕ
  pub fresh : ℕ → ℕ

-- The environment of a callee whose first statement is the k-th of the request.
abbrev pub from : ℕ → Env → Env
from k v = record {
  down = λ n. v.down (k + n);
  now = λ n. v.now (k + n);
  fresh = λ n. v.fresh (k + n);
}

-- A statement that reaches the database, or the driver's error.
abbrev pub statement : {S A : Type 0} → Bool → Action S A → Action S A
statement true m s = (err database, s)
statement false m s = m s

-- A transaction: an error, also one of its commit, rolls back what was written in it.
abbrev pub rolled_back : {S A : Type 0} → Action S A → Action S A
rolled_back m s = let (r, s') = m s in elim r [ ok a ↦ (ok a, s') | err e ↦ (err e, s) ]

-- A row of audit_logs: who did what to which entity. Its id and time, the two JSON documents
-- and the request's address and agent are left out.
pub record AuditLog : Type 0 where
  pub user_id : ℕ
  pub tenant_id : ℕ
  pub action : String
  pub entity_type : String
  pub entity_id : ℕ

pub Result-cases :
    {A : Type 0} (r : Result A) → ((a : A) × (r ≡ ok a)) ⊎ ((e : Error) × (r ≡ err e))
Result-cases (ok a) = inl (a, refl)
Result-cases (err e) = inr (e, refl)

module _ {S A B : Type 0} where
  -- What a chain that succeeds went through, when its first call does not write.
  pub bind_ok :
      (m : Action S A) (f : A → Action S B) (s : S) (b : B)
      → (m s).1 ≡ s
      → ((m >>= f) s).0 ≡ ok b
      → (a : A) × ((m s).0 ≡ ok a) × ((m >>= f) s ≡ f a s) × ((f a s).0 ≡ ok b)
  bind_ok m f s b reads h =
      let tail : Result A → S → Result B × S =
        λ r t. elim r [ ok a ↦ f a t | err e ↦ (err e, t) ] in
      elim (Result-cases (m s).0) [
        | inl (a, e) ↦
            let whole : (m >>= f) s ≡ f a s = ap (λ r. tail r (m s).1) e ∙ ap (tail (ok a)) reads in
            (a, e, whole, sym (ap (λ x. x.0) whole) ∙ h)
        | inr (e, bad) ↦
            let failed : ((m >>= f) s).0 ≡ err e = ap (λ r. (tail r (m s).1).0) bad in
            cc (failed, h)
      ]

  -- The same when the first call may write.
  pub bind_ok_at :
      (m : Action S A) (f : A → Action S B) (s : S) (b : B)
      → ((m >>= f) s).0 ≡ ok b
      → (a : A) × ((m s).0 ≡ ok a) × ((m >>= f) s ≡ f a (m s).1) × ((f a (m s).1).0 ≡ ok b)
  bind_ok_at m f s b h =
      let tail : Result A → Result B × S =
        λ r. elim r [ ok a ↦ f a (m s).1 | err e ↦ (err e, (m s).1) ] in
      elim (Result-cases (m s).0) [
        | inl (a, e) ↦
            let whole : (m >>= f) s ≡ f a (m s).1 = ap tail e in
            (a, e, whole, sym (ap (λ x. x.0) whole) ∙ h)
        | inr (e, bad) ↦
            let failed : ((m >>= f) s).0 ≡ err e = ap (λ r. (tail r).0) bad in cc (failed, h)
      ]

module _ {S B : Type 0} where
  -- A check that a chain which succeeds has passed.
  pub check_ok :
      (test : Bool) (e : Error) (k : Unit {0} → Action S B) (s : S) (b : B)
      → ((raise_if test e >>= k) s).0 ≡ ok b
      → (test ≡ false) × ((raise_if test e >>= k) s ≡ k tt s) × ((k tt s).0 ≡ ok b)
  check_ok true e k s b h = cc h
  check_ok false e k s b h = (refl, refl, h)

module _ {S A B : Type 0} where
  -- A chain that fails has written nothing, if neither call writes when the chain fails there.
  pub bind_clean :
      (m : Action S A) (f : A → Action S B) (s : S) (e : Error)
      → (m s).1 ≡ s
      → ((a : A) → (f a s).0 ≡ err e → (f a s).1 ≡ s)
      → ((m >>= f) s).0 ≡ err e
      → ((m >>= f) s).1 ≡ s
  bind_clean m f s e reads next h =
      let tail : Result A → S → Result B × S =
        λ r t. elim r [ ok a ↦ f a t | err x ↦ (err x, t) ] in
      elim (Result-cases (m s).0) [
        | inl (a, good) ↦
            let whole : (m >>= f) s ≡ f a s =
              ap (λ r. tail r (m s).1) good ∙ ap (tail (ok a)) reads in
            ap (λ x. x.1) whole ∙ next a (sym (ap (λ x. x.0) whole) ∙ h)
        | inr (x, bad) ↦ ap (λ r. (tail r (m s).1).1) bad ∙ reads
      ]

  -- What holds of the store before a call that does not write, and after each way on, holds after
  -- the chain.
  pub bind_keeps :
      (P : S → Type 0) (m : Action S A) (f : A → Action S B) (s : S)
      → (m s).1 ≡ s
      → P s
      → ((a : A) → (m s).0 ≡ ok a → P (f a s).1)
      → P ((m >>= f) s).1
  bind_keeps P m f s reads h next =
      let tail : Result A → S → Result B × S =
        λ r t. elim r [ ok a ↦ f a t | err x ↦ (err x, t) ] in
      elim (Result-cases (m s).0) [
        | inl (a, good) ↦
            subst P (sym (ap (λ r. (tail r (m s).1).1) good ∙ ap (λ t. (tail (ok a) t).1) reads))
              (next a good)
        | inr (x, bad) ↦ subst P (sym (ap (λ r. (tail r (m s).1).1) bad ∙ reads)) h
      ]

  -- The same for a call that writes.
  pub bind_writes :
      (P : S → Type 0) (m : Action S A) (f : A → Action S B) (s : S)
      → P (m s).1
      → ((a : A) → P (f a (m s).1).1)
      → P ((m >>= f) s).1
  bind_writes P m f s h next =
      let tail : Result A → Result B × S =
        λ r. elim r [ ok a ↦ f a (m s).1 | err x ↦ (err x, (m s).1) ] in
      elim (Result-cases (m s).0) [
        | inl (a, good) ↦ subst P (sym (ap (λ r. (tail r).1) good)) (next a)
        | inr (x, bad) ↦ subst P (sym (ap (λ r. (tail r).1) bad)) h
      ]

pub raise_if_read_only : {S : Type 0} (test : Bool) (e : Error) (s : S) → (raise_if test e s).1 ≡ s
raise_if_read_only true e s = refl
raise_if_read_only false e s = refl

pub gets_read_only :
    {S A : Type 0} (down : Bool) (f : S → A) (s : S) → (statement down (gets f) s).1 ≡ s
gets_read_only true f s = refl
gets_read_only false f s = refl

pub gets_is :
    {S A : Type 0} (down : Bool) (f : S → A) (s : S) (a : A)
    → (statement down (gets f) s).0 ≡ ok a
    → f s ≡ a
gets_is true f s a h = cc h
gets_is false f s a h = cc h

pub or_raise_read_only : {S A : Type 0} (o : Option A) (e : Error) (s : S) → (or_raise o e s).1 ≡ s
or_raise_read_only none e s = refl
or_raise_read_only (some a) e s = refl
