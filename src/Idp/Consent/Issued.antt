-- ===== src/Idp/Consent/Issued.antt =====
-- What a user's consent puts under the code that the IdP issues.
use orionlink.Prelude.{
  ℕ, ◌+◌, ◌≤◌, ◌||◌, ◌≡◌, refl, true, false, some, Bytes, text, is_empty, bytes_eq_refl, ok, Dict,
  lookup, ltb, lookup-insert_self, arith, if◌then◌else◌,
}
use orionlink.Idp.Store.{AuthorizationCode, save_code, get_code}
use orionlink.Idp.Consent.{
  User, IdpSession, Cookies, Requests, check_user, do_login, handle_do_login, handle_authorize,
  read_consent, handle_authorize_code,
}

-- A user logs in with the account's name and password, is asked to consent to a credential and a
-- scope, and consents with an encrypted text that is not empty: then each step succeeds, and for
-- five minutes the code that was drawn stands for this credential and this account. Its encrypted
-- text and its scope are whatever the strings of the request that brought the consent read later;
-- the scope has come back in a cookie.
pub get_code-handle_authorize_code :
    (w : Requests) (users : Dict User) (codes : Dict AuthorizationCode) (sess : IdpSession)
    (cookies : Cookies) (u : User) (username next acid scope d_enc drawn : Bytes) (now later : ℕ)
    → lookup username users ≡ some u
    → is_empty username ≡ false
    → is_empty u.password ≡ false
    → is_empty d_enc ≡ false
    → later ≤ now + 300
    → (logged : IdpSession) × (asked : IdpSession) × (page : Bytes) × (shown : Cookies)
      × (handle_do_login users (ok sess) true username u.password next ≡ ok (logged, page))
      × (handle_authorize cookies (ok logged) true acid scope ≡ (shown, ok asked))
      × ((handle_authorize_code w users codes shown (ok asked) d_enc (some drawn) now).1 ≡ ok drawn)
      × ((get_code
            (handle_authorize_code w users codes shown (ok asked) d_enc (some drawn) now).0
            later
            drawn).1
          ≡ ok (record {
            code = drawn;
            oprf_enc = w.query_later d_enc;
            acid = acid;
            uid = u.sub;
            username = username;
            email = u.email;
            scope = w.cookie_later (w.returned scope);
            expires_at = now + 300;
            used = false;
          }))
unfolding handle_do_login do_login check_user handle_authorize read_consent handle_authorize_code
    save_code get_code
get_code-handle_authorize_code w users codes sess cookies u username next acid scope d_enc drawn now
      later known named secret full early =
    let live : ltb (now + 300) later ≡ false = ground arith in
    (
      record sess { uid = some u.sub; username = some username },
      record sess { uid = some u.sub; username = some username; acid = some acid },
      (if is_empty next then text "/" else next),
      record { uid = some u.sub; acid = some acid; scope = some scope },
      rw (named, secret, known, bytes_eq_refl u.password) refl,
      refl,
      rw full refl,
      rw (full, known, lookup-insert_self drawn _ codes, live) refl,
    )

-- A login form whose name or password is empty logs in the account "Alice" if its password is
-- "Alice-pass", whatever else the form says.
pub handle_do_login-blank :
    (users : Dict User) (sess : IdpSession) (u : User) (username password next : Bytes)
    → (is_empty username || is_empty password) ≡ true
    → lookup (text "Alice") users ≡ some u
    → u.password ≡ text "Alice-pass"
    → handle_do_login users (ok sess) true username password next
      ≡ ok (
        record sess { uid = some u.sub; username = some (text "Alice") },
        if is_empty next then text "/" else next,
      )
unfolding handle_do_login do_login check_user
handle_do_login-blank users sess u username password next blank known secret =
    rw (blank, known, secret, bytes_eq_refl (text "Alice-pass")) refl
