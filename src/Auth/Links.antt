-- ===== src/Auth/Links.antt =====
-- Links in mails work once: `ResetPassword` of internal/service/auth_service.go over
-- internal/repository/auth_email_token_repository.go.
use guestbook.Prelude.{
  ℕ, ◌≤◌, ◌==◌, String, is_empty, trim_space, ◌≡◌, refl, Bool, true, false, not, ◌||◌, some, List,
  [], ◌∷◌, arith, inl, inr, Bool-cases, Option-cases, All, all, update_if, find_first, count_if,
}
use guestbook.Action.{
  Result-cases, Error, Env, ok, err, sign_in_token_invalid, database, invalid_input,
}
use guestbook.Store.{is_null}
use guestbook.Auth.Rows.{AuthEmailToken, Accounts, AuthService}
use guestbook.Auth.Repo.{
  is_action_token, revoke_all_for_user, update_password, consume_action_token,
}
use guestbook.Auth.Service.{reset_password}
use guestbook.Auth.Requests.{Request, serve_all}
use guestbook.Auth.Used.{is_used, with_hash, IsNew, serve_all-Used}

none_used :
    (hash : String) (p : AuthEmailToken → Bool) (now : ℕ) (ts : List AuthEmailToken)
    → count_if (with_hash hash) ts ≤ 0
    → is_used hash (update_if p (λ t. record t { used_at = some now }) ts) ≡ true
unfolding count_if is_used all update_if
none_used hash p now [] h = refl
none_used hash p now (t ∷ ts) h = ground (arith, none_used hash p now ts)

found_counts :
    (hash purpose : String) (ts : List AuthEmailToken) (t : AuthEmailToken)
    → find_first (is_action_token hash purpose) ts ≡ some t
    → 1 ≤ count_if (with_hash hash) ts
unfolding find_first count_if
found_counts hash purpose [] t found = cc
found_counts hash purpose (x ∷ ts) t found = ground (arith, found, found_counts hash purpose ts t)

-- Using the one row that a search finds leaves no unused row with its hash.
use_found :
    (hash purpose : String) (now : ℕ) (ts : List AuthEmailToken) (t : AuthEmailToken)
    → find_first (is_action_token hash purpose) ts ≡ some t
    → count_if (with_hash hash) ts ≤ 1
    → is_used hash (update_if (λ r. r.id == t.id) (λ r. record r { used_at = some now }) ts) ≡ true
unfolding find_first count_if is_used all update_if
use_found hash purpose now [] t found unique = refl
use_found hash purpose now (x ∷ ts) t found unique =
    elim (Bool-cases (is_action_token hash purpose x)) [
      | inl pass ↦
          let same : x ≡ t = ground (arith, pass) in
          ground (arith, pass, same, none_used hash (λ r. r.id == t.id) now ts)
      | inr fail ↦ elim (Bool-cases (x.id == t.id)) [
        | inl hit ↦ ground (
          arith,
          fail,
          hit,
          found,
          unique,
          use_found hash purpose now ts t,
          found_counts hash purpose ts t,
        )
        | inr miss ↦ ground (
          arith,
          fail,
          miss,
          found,
          unique,
          use_found hash purpose now ts t,
          found_counts hash purpose ts t,
        )
      ]
    ]

consume-Used_after :
    (v : Env) (hash purpose : String) (now id : ℕ) (s : Accounts)
    → count_if (with_hash hash) s.action_tokens ≤ 1
    → (consume_action_token v hash purpose now s).0 ≡ ok id
    → is_used hash (consume_action_token v hash purpose now s).1.action_tokens ≡ true
unfolding consume_action_token
consume-Used_after v hash purpose now id s unique h =
    elim (Option-cases (find_first (is_action_token hash purpose) s.action_tokens)) [
      | inl gone ↦ ground (arith, gone, h)
      | inr (t, found) ↦
          ground (arith, found, h, use_found hash purpose now s.action_tokens t found unique)
    ]

used_found :
    (hash purpose : String) (ts : List AuthEmailToken) (t : AuthEmailToken)
    → is_used hash ts ≡ true
    → find_first (is_action_token hash purpose) ts ≡ some t
    → is_null t.used_at ≡ false
unfolding is_used all find_first
used_found hash purpose [] t h found = cc
used_found hash purpose (x ∷ ts) t h found = ground (arith, h, found, used_found hash purpose ts t)

-- A used token is not consumed again.
consume-refused :
    (v : Env) (hash purpose : String) (now : ℕ) (s : Accounts)
    → is_used hash s.action_tokens ≡ true
    → (e : Error) × (consume_action_token v hash purpose now s ≡ (err e, s))
unfolding consume_action_token
consume-refused v hash purpose now s h =
    elim (Option-cases (find_first (is_action_token hash purpose) s.action_tokens)) [
      | inl gone ↦ elim (Bool-cases (v.down 0)) [
        | inl lost ↦ (database, ground (arith, lost))
        | inr up ↦ elim (Bool-cases (v.down 1)) [
          | inl lost ↦ (database, ground (arith, up, lost))
          | inr read ↦ (invalid_input, ground (arith, up, read, gone))
        ]
      ]
      | inr (t, found) ↦
          let used = used_found hash purpose s.action_tokens t h found in
          elim (Bool-cases (v.down 0)) [
            | inl lost ↦ (database, ground (arith, lost))
            | inr up ↦ elim (Bool-cases (v.down 1)) [
              | inl lost ↦ (database, ground (arith, up, lost))
              | inr read ↦ (invalid_input, ground (arith, up, read, found, used))
            ]
          ]
    ]

reset-Used_after :
    (a : AuthService) (v : Env) (token password : String) (s : Accounts)
    → count_if (with_hash (a.libraries.sha256 token)) s.action_tokens ≤ 1
    → (reset_password a v token password s).0 ≡ ok tt
    → is_used (a.libraries.sha256 token) (reset_password a v token password s).1.action_tokens
      ≡ true
unfolding reset_password update_password revoke_all_for_user
reset-Used_after a v token password s unique h =
    elim (Result-cases
      (consume_action_token v (a.libraries.sha256 token) "password_reset" (v.now 0) s).0) [
        | inl (id, e) ↦
            let used =
              consume-Used_after v (a.libraries.sha256 token) "password_reset" (v.now 0) id s unique
                e in
            ground (arith, e, h, used)
        | inr (x, e) ↦ ground (arith, e, h)
      ]

-- After a use of the link, any call with it is refused and changes nothing.
reset-refused :
    (a : AuthService) (v : Env) (token password : String) (s : Accounts)
    → is_used (a.libraries.sha256 token) s.action_tokens ≡ true
    → (e : Error) × (reset_password a v token password s ≡ (err e, s))
unfolding reset_password
reset-refused a v token password s h =
    let (e, whole) = consume-refused v (a.libraries.sha256 token) "password_reset" (v.now 0) s h in
    elim (Bool-cases (not a.verify_email_enabled || is_empty (trim_space token))) [
      | inl blank ↦ (sign_in_token_invalid, ground (arith, blank))
      | inr given ↦ elim (Result-cases (a.libraries.bcrypt (v.fresh 0) password)) [
        | inl (hash, good) ↦ (sign_in_token_invalid, ground (arith, given, good, whole))
        | inr (x, bad) ↦ (x, ground (arith, given, bad))
      ]
    ]

-- A link to reset the password works once: after a reset that succeeds, with a token whose hash one
-- row has at most, and after whatever further calls are served, where no new token has that hash,
-- a reset with the same token fails and changes nothing.
pub reset_password_once :
    (a : AuthService) (v w : Env) (token password other : String) (s : Accounts) (rs : List Request)
    → count_if (with_hash (a.libraries.sha256 token)) s.action_tokens ≤ 1
    → All (λ r. IsNew a.libraries (a.libraries.sha256 token) r.env) rs
    → (reset_password a v token password s).0 ≡ ok tt
    → let t = serve_all a rs (reset_password a v token password s).1 in
      (e : Error) × (reset_password a w token other t ≡ (err e, t))
reset_password_once a v w token password other s rs unique later h =
    reset-refused a w token other (serve_all a rs (reset_password a v token password s).1) (
      serve_all-Used a (a.libraries.sha256 token) rs (reset_password a v token password s).1 later
        (reset-Used_after a v token password s unique h))
