-- ===== src/Rp/Callback.antt =====
-- The end of a login at the RP: `handleCallback` and `requestTokenFromBroker` of RP/aaka.go, and
-- `requireLogin` and `handleCheckAuthorize` of RP/handler.go. The session of the
-- browser is fiber's: the model has its values, and whether it can be read and saved.
use orionlink.Prelude.{
  ℕ, Bool, not, Option, none, some, List, [], ◌∷◌, ◌++◌, Bytes, bytes_eq, is_empty, text, Result,
  ok, err, panic, ◌>>=◌, ◌>>◌, or_err, fail_if, rename_err, if◌then◌else◌,
}
use orionlink.Ecc.{Bls}
use orionlink.Crypto.{Crypto}
use orionlink.Wire.{Codec}
use orionlink.Session.{aes_decrypt_string}
use orionlink.Protocol.{AakeTokenFromRpRequest, AakeTokenToRpResponse}
use orionlink.Jwks.{Jwk, UrlCodec, JwtParser, verify_id_token}
use orionlink.Rp.Store.{RpUser, RpUserState, save_user_state, get_aake_state}
use orionlink.Rp.{RpServer}

-- The values of a browser's session.
pub record RpSession : Type 0 where
  pub state : Option Bytes
  pub rpuser : Option RpUser

-- What the callback reads: the time, the Broker's token endpoint, its key set, whether the session
-- can be saved, and `url.QueryEscape`.
pub record CallbackWorld : Type 0 where
  pub now : ℕ
  pub post : AakeTokenFromRpRequest → Result AakeTokenToRpResponse
  pub jwks : Result (List (Option Jwk))
  pub savable : Bool
  pub escape : Bytes → Bytes

unfoldable pub request_token_from_broker : CallbackWorld → Bytes → Result AakeTokenToRpResponse
request_token_from_broker w code =
    w.post (record { grant_type = text "authorization_code"; code = code })

module _ ⦃h : Crypto⦄ ⦃codec : Codec⦄ where
  -- A claim, decrypted if it is there and not empty.
  abbrev pub read_claim : Bytes → Option Bytes → Result Bytes
  read_claim ks none = ok []
  read_claim ks (some []) = ok []
  read_claim ks (some (c ∷ enc)) = aes_decrypt_string ks (c ∷ enc)

  module _ ⦃url : UrlCodec⦄ ⦃parser : JwtParser⦄ where
    -- The user of a callback, with the claims of the ID token, if there is one.
    unfoldable pub read_user : CallbackWorld → Bytes → AakeTokenToRpResponse → Result RpUser
    read_user w ks resp =
        let bare : RpUser = record {
          uid = resp.uid_rp;
          username = [];
          email = [];
          sub = [];
          access_token = resp.access_token;
        } in
        if is_empty resp.id_token
        then ok bare
        else (rename_err "invalid id_token" (verify_id_token w.now w.jwks resp.id_token)
            >>= λ claims. rename_err "failed to decrypt sub" (read_claim ks claims.sub) >>= λ sub.
                rename_err "failed to decrypt name" (read_claim ks claims.name) >>= λ name.
                rename_err "failed to decrypt email" (read_claim ks claims.email) >>= λ email.
                ok (record bare { username = name; email = email; sub = sub }))

    module _ ⦃b : Bls⦄ where
      -- What `handleCallback` checks, and the user state that it makes.
      unfoldable pub check_callback :
          RpServer
          → CallbackWorld
          → Result RpSession
          → Bytes
          → Bytes
          → Result (RpSession × RpUserState)
      check_callback s w opened state code = do
        sess ← rename_err "Failed to get session" opened
        saved ← or_err sess.state "no state on session"
        fail_if (is_empty saved) "no state on session"
        fail_if (not (bytes_eq state saved)) "state mismatch — possible CSRF"
        fail_if (is_empty code) "code is empty"
        resp ← rename_err "failed to request token from broker" (request_token_from_broker w code)
        aake ← or_err (get_aake_state s.store state) "AAKE state not found"
        user ← read_user w aake.ks resp
        ok (sess, record { user = user; ks = aake.ks; access_token = resp.access_token })

      -- The address that the browser goes to next.
      abbrev pub next_page : CallbackWorld → Bytes → Bytes → Bytes
      next_page w next start_time =
          (if is_empty next then text "/ssso/home" else next)
          ++ (text "?startTime=" ++ w.escape start_time)

      -- The end of `handleCallback`: the user is stored before the session is saved.
      abbrev pub log_in :
          RpServer
          → CallbackWorld
          → Bytes
          → Bytes
          → Result (RpSession × RpUserState)
          → RpServer × Result (RpSession × Bytes)
      log_in s w next start_time (err e) = (s, err e)
      log_in s w next start_time panic = (s, panic)
      log_in s w next start_time (ok (sess, state)) = (
        record s { store = save_user_state s.store state.user.uid (some state) },
        if w.savable
            then ok (record sess { rpuser = some state.user }, next_page w next start_time)
            else err "session not saved",
      )

      -- `handleCallback`, with the four query parameters.
      unfoldable pub handle_callback :
          RpServer
          → CallbackWorld
          → Result RpSession
          → Bytes
          → Bytes
          → Bytes
          → Bytes
          → RpServer × Result (RpSession × Bytes)
      handle_callback s w opened state code next start_time =
          log_in s w next start_time (check_callback s w opened state code)

-- Where a guarded page leads: on, or to the login page and back.
pub data Gate : Type 0 where
  pass : Gate
  redirect : Bytes → Gate

-- `requireLogin`.
unfoldable pub require_login : (Bytes → Bytes) → Bytes → Result RpSession → Gate
require_login escape original (err _) = redirect (text "/ssso/login?next=" ++ escape original)
require_login escape original panic = redirect (text "/ssso/login?next=" ++ escape original)
require_login escape original (ok sess) = elim sess.rpuser [
  | some _ ↦ pass
  | none ↦ redirect (text "/ssso/login?next=" ++ escape original)
]

-- `handleCheckAuthorize`, behind the session: the IdP's page of the user, with the access token.
abbrev pub userinfo_page : (Bytes → Bytes) → Bytes → Bytes → Option RpUser → Bytes
userinfo_page escape userinfo_url original (some user) =
    userinfo_url ++ (text "?access_token=" ++ user.access_token)
userinfo_page escape userinfo_url original none = text "/ssso/login?next=" ++ escape original

unfoldable pub handle_check_authorize :
    (Bytes → Bytes) → Bytes → Bytes → Result RpSession → Result Bytes
handle_check_authorize escape userinfo_url original opened =
    rename_err "failed to get session" opened >>= λ sess.
    ok (userinfo_page escape userinfo_url original sess.rpuser)
