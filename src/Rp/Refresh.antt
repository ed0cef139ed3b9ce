-- ===== src/Rp/Refresh.antt =====
-- `handleRefresh` of RP/handler.go: a refresh through the Broker, and the new access token in the
-- session.
use orionlink.Prelude.{
  Bool, some, Bytes, is_empty, Result, ok, err, panic, ◌>>=◌, ◌>>◌, or_err, fail_if, rename_err,
  if◌then◌else◌,
}
use orionlink.Ecc.{Bls}
use orionlink.Crypto.{Crypto}
use orionlink.Protocol.{RefreshTokenFromRpRequest, RefreshTokenToRpResponse}
use orionlink.Ratchet.{PayloadJson}
use orionlink.Ratchet.Rp.{RpRefresh, decrypt_response}
use orionlink.Rp.Store.{RpUser}
use orionlink.Rp.{RpServer}
use orionlink.Rp.Callback.{RpSession}

module _ ⦃b : Bls⦄ where
  -- The session, its user, and the Broker's answer.
  unfoldable pub request_refresh :
      RpServer
      → (RefreshTokenFromRpRequest → Result RefreshTokenToRpResponse)
      → Result RpSession
      → Result (RpSession × RpUser × RefreshTokenToRpResponse)
  request_refresh s post opened = do
    sess ← rename_err "RP: session error." opened
    user ← or_err sess.rpuser "RP: user not logged in"
    fail_if (is_empty user.uid) "RP: user not logged in"
    fail_if (is_empty s.tid) "RP: missing tid"
    resp ←
        rename_err "RP: refresh request failed. " (post (record { tid = s.tid; uid_rp = user.uid }))
    ok (sess, user, resp)

  -- The end of `handleRefresh`, behind the decryption: the ratchet has moved in every case.
  abbrev pub renew :
      RpServer
      → Bool
      → RpSession
      → RpUser
      → RpRefresh × Result Bytes
      → RpServer × Result (RpSession × Bytes)
  renew s savable sess user (refresh, err _) =
      (record s { refresh = refresh }, err "RP: refresh decrypt failed. ")
  renew s savable sess user (refresh, panic) = (record s { refresh = refresh }, panic)
  renew s savable sess user (refresh, ok token) = (
    record s { refresh = refresh },
    if savable
        then ok (record sess { rpuser = some (record user { access_token = token }) }, token)
        else err "RP: failed to save session. ",
  )

  module _ ⦃h : Crypto⦄ ⦃json : PayloadJson⦄ where
    abbrev pub receive :
        RpServer
        → Bool
        → Result (RpSession × RpUser × RefreshTokenToRpResponse)
        → RpServer × Result (RpSession × Bytes)
    receive s savable (err e) = (s, err e)
    receive s savable panic = (s, panic)
    receive s savable (ok (sess, user, resp)) =
        renew s savable sess user (decrypt_response s.refresh s.session_ks resp)

    -- `handleRefresh`, for a server that has its helper; `post` is the exchange with the Broker.
    unfoldable pub handle_refresh :
        RpServer
        → (RefreshTokenFromRpRequest → Result RefreshTokenToRpResponse)
        → Result RpSession
        → Bool
        → RpServer × Result (RpSession × Bytes)
    handle_refresh s post opened savable = receive s savable (request_refresh s post opened)
