-- ===== src/Idp/Consent.antt =====
-- A user at the IdP: `handleDoLogin`, `checkUser` and `handleAuthorize` of IdP/handler.go,
-- `handleAuthorizeCode` and `handleRevokeAuthorized` of IdP/ssso.go, the record that
-- `handleRevokePage` of IdP/revoke.go shows, and `UseTestUsers` of IdP/storage.go. The session of the
-- browser is fiber's: the model has its values, and whether it can be read and saved.
pub mod Issued
use orionlink.Prelude.{
  ℕ, Bool, true, false, not, ◌||◌, ◌&&◌, Option, none, some, List, [], ◌∷◌, Bytes, text, bytes_eq,
  is_empty, Result, ok, err, panic, ◌>>=◌, ◌>>◌, deref, or_err, fail_if, rename_err, if◌then◌else◌,
  Dict, lookup, insert,
}
use orionlink.Files.{File, missing, unreadable, content_of, Json}
use orionlink.Idp.Store.{AuthorizationCode, AuthorizedUserData, save_code, get_all, delete}

-- An account.
pub record User : Type 0 where
  pub username : Bytes
  pub password : Bytes
  pub sub : Bytes
  pub email : Bytes

-- The values of a browser's session at the IdP.
pub record IdpSession : Type 0 where
  pub uid : Option Bytes
  pub username : Option Bytes
  pub acid : Option Bytes

-- The three cookies of `handleAuthorize`.
pub record Cookies : Type 0 where
  pub uid : Option Bytes
  pub acid : Option Bytes
  pub scope : Option Bytes

unfoldable pub check_user : Dict User → Bytes → Bytes → Result (Unit {0})
check_user users username password = do
  fail_if (is_empty username || is_empty password) "missing username or password"
  u ← or_err (lookup username users) "invalid credentials"
  fail_if (not (bytes_eq u.password password)) "invalid credentials"

-- `handleDoLogin` behind the defaults of the form.
unfoldable pub do_login :
    Dict User
    → Result IdpSession
    → Bool
    → (username password next : Bytes) → Result (IdpSession × Bytes)
do_login users opened savable username password next = do
  rename_err "Username or password is incorrect" (check_user users username password)
  sess ← rename_err "failed to get session" opened
  u ← deref (lookup username users)
  fail_if (not savable) "failed to save session"
  ok (
    record sess { uid = some u.sub; username = some username },
    if is_empty next then text "/" else next,
  )

-- `handleDoLogin`: the session that is saved, and the address that the browser goes to.
unfoldable pub handle_do_login :
    Dict User
    → Result IdpSession
    → Bool
    → (username password next : Bytes) → Result (IdpSession × Bytes)
handle_do_login users opened savable username password next =
    if is_empty username || is_empty password
    then do_login users opened savable (text "Alice") (text "Alice-pass") next
    else do_login users opened savable username password next

-- `handleAuthorize` behind the session: the cookies of the user and the credential are set also
-- when the session is not saved.
abbrev pub show_consent :
    Cookies → Bool → (acid scope : Bytes) → IdpSession → Option Bytes → Cookies × Result IdpSession
show_consent cookies savable acid scope sess none = (cookies, panic)
show_consent cookies true acid scope sess (some uid) = (
  record { uid = some uid; acid = some acid; scope = some scope },
  ok (record sess { acid = some acid }),
)
show_consent cookies false acid scope sess (some uid) = (
  record { uid = some uid; acid = some acid; scope = cookies.scope },
  err "failed to save session",
)

-- `handleAuthorize`: the cookies, and the session that is saved.
unfoldable pub handle_authorize :
    Cookies → Result IdpSession → Bool → (acid scope : Bytes) → Cookies × Result IdpSession
handle_authorize cookies (err _) savable acid scope = (cookies, err "failed to get session")
handle_authorize cookies panic savable acid scope = (cookies, panic)
handle_authorize cookies (ok sess) savable acid scope =
    show_consent cookies savable acid scope sess sess.uid

-- What fiber and the browser do to the texts of a request: the value with which a cookie that was
-- set comes back; and, since fiber's strings are views of a buffer that it uses again, what a text of
-- the query and one of a cookie read once the handler that kept them has returned.
pub record Requests : Type 0 where
  pub returned : Bytes → Bytes
  pub query_later : Bytes → Bytes
  pub cookie_later : Bytes → Bytes

-- `c.Cookies(name)`
abbrev pub cookie : Requests → Option Bytes → Bytes
cookie w none = []
cookie w (some v) = w.returned v

-- The address of the account, if there is one.
abbrev pub email_of : Option User → Bytes
email_of none = []
email_of (some u) = u.email

-- What `handleAuthorizeCode` reads: the credential, the user's id and the user's name.
unfoldable pub read_consent : Result IdpSession → Bytes → Result (Bytes × Bytes × Bytes)
read_consent opened d_enc = do
  sess ← rename_err "failed to get session" opened
  acid ← deref sess.acid
  uid ← deref sess.uid
  username ← deref sess.username
  fail_if (is_empty d_enc) "missing D_enc."
  ok (acid, uid, username)

abbrev pub code_of :
    Dict AuthorizationCode × Result AuthorizationCode → Dict AuthorizationCode × Result Bytes
code_of (codes, ok ac) = (codes, ok ac.code)
code_of (codes, err _) = (codes, err "failed to save code")
code_of (codes, panic) = (codes, panic)

-- The code keeps two strings of the request.
abbrev pub save_consent :
    Requests
    → Dict User
    → Dict AuthorizationCode
    → Cookies
    → Bytes
    → Option Bytes
    → ℕ
    → Result (Bytes × Bytes × Bytes)
    → Dict AuthorizationCode × Result Bytes
save_consent w users codes cookies d_enc drawn now (err e) = (codes, err e)
save_consent w users codes cookies d_enc drawn now panic = (codes, panic)
save_consent w users codes cookies d_enc drawn now (ok (acid, uid, username)) = code_of (
    save_code codes drawn (w.query_later d_enc) acid uid username (email_of (lookup username users))
      (w.cookie_later (cookie w cookies.scope)) now 300)

-- `handleAuthorizeCode`, with what `GenerateCode` gives: the codes, and the code that is answered.
unfoldable pub handle_authorize_code :
    Requests
    → Dict User
    → Dict AuthorizationCode
    → Cookies
    → Result IdpSession
    → Bytes
    → Option Bytes
    → ℕ
    → Dict AuthorizationCode × Result Bytes
handle_authorize_code w users codes cookies opened d_enc drawn now =
    save_consent w users codes cookies d_enc drawn now (read_consent opened d_enc)

-- `handleRevokeAuthorized` behind the session.
abbrev pub revoke :
    Dict (List AuthorizedUserData)
    → Bytes
    → Option Bytes
    → Dict (List AuthorizedUserData) × Result (Unit {0})
revoke messages acid none = (messages, panic)
revoke messages acid (some uid) =
    if is_empty acid
    then (messages, err "missing acid")
    else (delete messages (some uid) (some acid), ok tt)

unfoldable pub handle_revoke_authorized :
    Dict (List AuthorizedUserData)
    → Result IdpSession
    → Bytes
    → Dict (List AuthorizedUserData) × Result (Unit {0})
handle_revoke_authorized messages (err _) acid = (messages, err "failed to get session")
handle_revoke_authorized messages panic acid = (messages, panic)
handle_revoke_authorized messages (ok sess) acid = revoke messages acid sess.uid

-- `UseTestUsers`: a file that cannot be read changes nothing.
unfoldable pub add_users : List User → Dict User → Dict User
add_users [] users = users
add_users (u ∷ us) users = add_users us (insert u.username u users)

abbrev pub users_of : Option (List User) → Dict User → Dict User
users_of none users = users
users_of (some us) users = add_users us users

unfoldable pub use_test_users : ⦃json : Json (List User)⦄ → File → Dict User → Dict User
use_test_users missing users = users
use_test_users unreadable users = users
use_test_users ⦃json⦄ (content_of bytes) users = users_of (json.unmarshal bytes) users

-- The record that `handleRevokePage` shows: the first of the session's credential, or the last one.
unfoldable pub first_with : Bytes → List AuthorizedUserData → Option AuthorizedUserData
first_with acid [] = none
first_with acid (r ∷ rs) =
    let rest = first_with acid rs in if bytes_eq r.acid acid then some r else rest

unfoldable pub last_of : AuthorizedUserData → List AuthorizedUserData → AuthorizedUserData
last_of r [] = r
last_of r (r' ∷ rs) = last_of r' rs

abbrev pub or_last : AuthorizedUserData → Option AuthorizedUserData → AuthorizedUserData
or_last r none = r
or_last r (some found) = found

abbrev pub chosen : Option Bytes → List AuthorizedUserData → Result AuthorizedUserData
chosen acid [] = err "no authorization record for this user"
chosen none (r ∷ rs) = ok (last_of r rs)
chosen (some []) (r ∷ rs) = ok (last_of r rs)
chosen (some (c ∷ acid)) (r ∷ rs) = ok (or_last (last_of r rs) (first_with (c ∷ acid) (r ∷ rs)))

-- `handleRevokePage` as far as the record: none without a user.
unfoldable pub revoke_page :
    Dict (List AuthorizedUserData) → Result IdpSession → Result AuthorizedUserData
revoke_page messages opened = do
  sess ← rename_err "failed to get session" opened
  uid ← or_err sess.uid "redirect to login"
  fail_if (is_empty uid) "redirect to login"
  chosen sess.acid (get_all messages (some uid))
