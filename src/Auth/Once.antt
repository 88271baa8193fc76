-- ===== src/Auth/Once.antt =====
-- A refresh token opens one session: `Refresh` and `ChangePassword` of
-- internal/service/auth_service.go.
use guestbook.Prelude.{
  ℕ, ◌≤◌, String, str_eq, ◌≡◌, refl, Bool, true, false, Option, some, List, [], ◌∷◌, arith, inl,
  inr, Bool-cases, Option-cases, All, all, update_if, find_first, count_if,
}
use guestbook.Action.{Env, from, ok, err, sign_in_token_invalid}
use guestbook.Store.{is_null}
use guestbook.Auth.Rows.{RefreshToken, Accounts, AuthService, TokenPair, ChangePasswordRequest}
use guestbook.Auth.Repo.{
  has_hash, revoked, is_live_token, is_live_of, get_user_by_id, find_user_by_id, update_password,
}
use guestbook.Auth.Tokens.{
  raw_token, find_refresh_token, create_refresh_token, validate, revoke, revoke_all_user_tokens,
}
use guestbook.Auth.Service.{refresh, refresh_session, change_password}
use guestbook.Auth.Requests.{Request, serve_all}
use guestbook.Auth.Spent.{is_dead, IsFresh, serve_all-Dead}

dead_found :
    (hash : String) (ts : List RefreshToken) (t : RefreshToken)
    → is_dead hash ts ≡ true
    → find_first (has_hash hash) ts ≡ some t
    → is_null t.revoked_at ≡ false
unfolding is_dead all find_first
dead_found hash [] t h found = cc
dead_found hash (x ∷ ts) t h found = ground (arith, h, found, dead_found hash ts t)

-- A revoked token is refused.
dead-refused :
    (a : AuthService) (v : Env) (token : String) (s : Accounts)
    → is_dead (a.libraries.sha256 token) s.refresh_tokens ≡ true
    → refresh a v token s ≡ (err sign_in_token_invalid, s)
unfolding refresh validate find_refresh_token
dead-refused a v token s h =
    elim (Option-cases (find_first (has_hash (a.libraries.sha256 token)) s.refresh_tokens)) [
      | inl gone ↦ ground (arith, gone)
      | inr (t, found) ↦
          ground (arith, found, dead_found (a.libraries.sha256 token) s.refresh_tokens t h found)
    ]

none_left :
    (hash : String) (ts : List RefreshToken)
    → count_if (has_hash hash) ts ≤ 0
    → is_dead hash ts ≡ true
unfolding count_if is_dead all
none_left hash [] h = refl
none_left hash (t ∷ ts) h = ground (arith, none_left hash ts)

none_changed :
    (hash : String) (p : RefreshToken → Bool) (now : ℕ) (by : Option ℕ) (ts : List RefreshToken)
    → count_if (has_hash hash) ts ≤ 0
    → is_dead hash (update_if p (revoked now by) ts) ≡ true
unfolding count_if is_dead all update_if
none_changed hash p now by [] h = refl
none_changed hash p now by (t ∷ ts) h = ground (arith, none_changed hash p now by ts)

-- Revoking the one row that a search finds leaves no live row with its hash.
revoke_found :
    (hash : String) (now : ℕ) (by : Option ℕ) (ts : List RefreshToken) (t : RefreshToken)
    → find_first (has_hash hash) ts ≡ some t
    → count_if (has_hash hash) ts ≤ 1
    → is_null t.revoked_at ≡ true
    → is_dead hash (update_if (is_live_token t.id) (revoked now by) ts) ≡ true
unfolding find_first count_if is_dead all update_if
revoke_found hash now by [] t found unique live = refl
revoke_found hash now by (x ∷ ts) t found unique live = elim (Bool-cases (has_hash hash x)) [
  | inl pass ↦
      let same : x ≡ t = ground (arith, pass) in
      ground (arith, pass, same, live, none_changed hash (is_live_token t.id) now by ts)
  | inr fail ↦ ground (arith, fail, revoke_found hash now by ts t)
]

refresh_accepted :
    (a : AuthService) (v : Env) (token : String) (s : Accounts) (p : TokenPair)
    → (refresh a v token s).0 ≡ ok p
    → (t : RefreshToken) × (find_first (has_hash (a.libraries.sha256 token)) s.refresh_tokens
        ≡ some t)
      × (is_null t.revoked_at ≡ true)
      × (refresh a v token s ≡ refresh_session a v t s)
unfolding refresh validate find_refresh_token
refresh_accepted a v token s p h =
    elim (Option-cases (find_first (has_hash (a.libraries.sha256 token)) s.refresh_tokens)) [
      | inl gone ↦ ground (arith, gone, h)
      | inr (t, found) ↦ (t, found, ground (arith, found, h), ground (arith, found, h))
    ]

session-Dead_after :
    (a : AuthService) (v : Env) (hash : String) (t : RefreshToken) (s : Accounts) (p : TokenPair)
    → str_eq (a.libraries.sha256 (raw_token a.libraries (from 3 v))) hash ≡ false
    → ((by : ℕ)
        → is_dead hash
            (update_if (is_live_token t.id) (revoked (v.now 2) (some by)) s.refresh_tokens)
          ≡ true)
    → (refresh_session a v t s).0 ≡ ok p
    → is_dead hash (refresh_session a v t s).1.refresh_tokens ≡ true
unfolding refresh_session get_user_by_id revoke create_refresh_token is_dead all
session-Dead_after a v hash t s p new spent h = elim (Option-cases (find_user_by_id t.user_id s)) [
  | inl nobody ↦ ground (arith, nobody, h)
  | inr (user, known) ↦ ground (arith, known, new, h, spent user.id)
]

refresh-Dead_after :
    (a : AuthService) (v : Env) (token : String) (s : Accounts) (p : TokenPair)
    → count_if (has_hash (a.libraries.sha256 token)) s.refresh_tokens ≤ 1
    → IsFresh a.libraries (a.libraries.sha256 token) v
    → (refresh a v token s).0 ≡ ok p
    → is_dead (a.libraries.sha256 token) (refresh a v token s).1.refresh_tokens ≡ true
refresh-Dead_after a v token s p unique new h =
    let hash = a.libraries.sha256 token in
    let (t, found, live, whole) = refresh_accepted a v token s p h in
    let spent =
      λ (by : ℕ). revoke_found hash (v.now 2) (some by) s.refresh_tokens t found unique live in
    rw whole (session-Dead_after a v hash t s p (new 3) spent (cc (whole, h)))

-- A refresh token is good for one refresh: after one that succeeds, with a token whose hash one
-- row has at most, and after whatever further calls are served, where no new token has that hash,
-- the same token is refused and changes nothing.
pub refresh_once :
    (a : AuthService) (v w : Env) (token : String) (s : Accounts) (p : TokenPair)
    (rs : List Request)
    → count_if (has_hash (a.libraries.sha256 token)) s.refresh_tokens ≤ 1
    → IsFresh a.libraries (a.libraries.sha256 token) v
    → All (λ r. IsFresh a.libraries (a.libraries.sha256 token) r.env) rs
    → (refresh a v token s).0 ≡ ok p
    → let t = serve_all a rs (refresh a v token s).1 in
      refresh a w token t ≡ (err sign_in_token_invalid, t)
refresh_once a v w token s p rs unique new later h =
    dead-refused a w token (serve_all a rs (refresh a v token s).1) (
      serve_all-Dead a (a.libraries.sha256 token) rs (refresh a v token s).1 later
        (refresh-Dead_after a v token s p unique new h))

-- Whose rows are revoked all have no live row.
is_dead-revoke :
    (hash : String) (user now : ℕ) (by : Option ℕ) (ts : List RefreshToken)
    → All (λ t. has_hash hash t ≡ true → t.user_id ≡ user) ts
    → is_dead hash (update_if (is_live_of user) (revoked now by) ts) ≡ true
unfolding is_dead all update_if
is_dead-revoke hash user now by [] h = refl
is_dead-revoke hash user now by (t ∷ ts) h =
    ground (arith, h.0, is_dead-revoke hash user now by ts h.1)

change-Dead_after :
    (a : AuthService) (v : Env) (user : ℕ) (req : ChangePasswordRequest) (hash : String)
    (s : Accounts)
    → All (λ t. has_hash hash t ≡ true → t.user_id ≡ user) s.refresh_tokens
    → (change_password a v user req s).0 ≡ ok tt
    → is_dead hash (change_password a v user req s).1.refresh_tokens ≡ true
unfolding change_password update_password revoke_all_user_tokens
change-Dead_after a v user req hash s own h =
    ground (arith, h, is_dead-revoke hash user (v.now 2) (some user) s.refresh_tokens own)

-- A change of the password that succeeds ends the user's sessions: a refresh token that was the
-- user's before is refused, and changes nothing, after it and after whatever further calls are
-- served, where no new token has its hash.
pub change_password-refresh :
    (a : AuthService) (v w : Env) (user : ℕ) (req : ChangePasswordRequest) (token : String)
    (s : Accounts) (rs : List Request)
    → All (λ t. has_hash (a.libraries.sha256 token) t ≡ true → t.user_id ≡ user) s.refresh_tokens
    → All (λ r. IsFresh a.libraries (a.libraries.sha256 token) r.env) rs
    → (change_password a v user req s).0 ≡ ok tt
    → let t = serve_all a rs (change_password a v user req s).1 in
      refresh a w token t ≡ (err sign_in_token_invalid, t)
change_password-refresh a v w user req token s rs own later h =
    let hash = a.libraries.sha256 token in
    dead-refused a w token (serve_all a rs (change_password a v user req s).1) (
      serve_all-Dead a hash rs (change_password a v user req s).1 later
        (change-Dead_after a v user req hash s own h))
