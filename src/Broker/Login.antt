-- ===== src/Broker/Login.antt =====
-- The Broker's part of a login: `handleLogin` of Broker/handler.go, and `handleTokenFromIdP` of
-- Broker/aaka.go with its three requests. The exchanges over HTTP are parameters.
use orionlink.Prelude.{
  ℕ, ◌||◌, Option, none, some, List, [], ◌∷◌, ◌++◌, Bytes, text, is_empty, Result, ok, err, panic,
  ◌>>=◌, ◌>>◌, deref, or_err, fail_if, rename_err, if◌then◌else◌, Dict, lookup, erase,
}
use orionlink.Ecc.{Bls}
use orionlink.Wire.{Codec, acid_text, scalar_to_bytes, point_to_string}
use orionlink.Cred.PsSig.{to_json}
use orionlink.Token.{Jwt}
use orionlink.Protocol.{
  AakeGenPokRequest, AakeGenPokResponse, AakeTokenRequest, AakeTokenResponse, UnblindAuidRequest,
}
use orionlink.Jwks.{Jwk, UrlCodec, JwtParser}
use orionlink.Broker.Store.{Tokens, AuthorizationCode, issue_code}
use orionlink.Broker.Resign.{resign_tokens_with_broker_key}
use orionlink.Broker.{Broker, RpIdentity, BrokerSessionData, with_codes}

-- What the RP and the IdP answer, the IdP's key set as it is fetched twice, the time, the token
-- helper's issuer, what `GenerateCode` gives, and `url.QueryEscape`.
pub record LoginWorld : Type 0 where
  pub pok_from_rp : AakeGenPokRequest → Result AakeGenPokResponse
  pub token_from_idp : AakeTokenRequest → Result AakeTokenResponse
  pub unblind_from_rp : UnblindAuidRequest → Result Bytes
  pub jwks : Result (List (Option Jwk))
  pub jwks_again : Result (List (Option Jwk))
  pub now : ℕ
  pub issuer : Bytes
  pub drawn_code : Option Bytes
  pub escape : Bytes → Bytes

module _ ⦃b : Bls⦄ where
  -- The request of `requestPOKFromRP`.
  unfoldable pub pok_request : BrokerSessionData → AakeGenPokRequest
  pok_request d = record {
    r_sig1 = some (to_json (some d.rand_sig));
    t = scalar_to_bytes (some d.t);
    state = d.state;
  }

  unfoldable pub request_pok_from_rp : LoginWorld → BrokerSessionData → Result AakeGenPokResponse
  request_pok_from_rp w d = w.pok_from_rp (pok_request d)

  unfoldable pub request_token_from_idp :
      LoginWorld → AakeGenPokResponse → Bytes → Result AakeTokenResponse
  request_token_from_idp w pok code = w.token_from_idp (record { pok = pok; code = code })

  unfoldable pub request_unblind_from_rp : LoginWorld → BrokerSessionData → Bytes → Result Bytes
  request_unblind_from_rp w d auid = do
    uid_rp ← w.unblind_from_rp (record { auid = auid; k = scalar_to_bytes (some d.k) })
    fail_if (is_empty uid_rp) "RP returned empty uid_rp"
    ok uid_rp

  -- The text of the session's randomized credential, that `handleLogin` sends to the IdP.
  abbrev pub acid_string : ⦃codec : Codec⦄ → BrokerSessionData → Bytes
  acid_string d =
      acid_text (point_to_string b.g1 d.rand_sig.sigma1) (point_to_string b.g1 d.rand_sig.sigma2)

  -- Each scope with a space behind it.
  abbrev pub scope_string : List Bytes → Bytes
  scope_string [] = []
  scope_string (scope ∷ scopes) = scope ++ (text " " ++ scope_string scopes)

  -- `handleLogin`, with the session id of the query and of the cookie: the address at the IdP.
  unfoldable pub handle_login :
      ⦃codec : Codec⦄
      → Broker
      → (escape : Bytes → Bytes) → (authorize_url issuer query_id cookie_id : Bytes) → Result Bytes
  handle_login s escape authorize_url issuer query_id cookie_id = do
    let session_id = if is_empty query_id then cookie_id else query_id
    fail_if (is_empty session_id) "session_id not found"
    d ← or_err (lookup session_id s.session_data) "session data not found or invalid"
    rp ← deref (lookup d.tid s.rp_identity)
    ok (
        authorize_url
        ++ (text "?acid="
            ++ (escape (acid_string d)
                ++ (text "&redirect_uri="
                    ++ (escape (issuer ++ text "/ssso/callback")
                        ++ (text "&scope=" ++ escape (scope_string rp.scopes)))))))

  module _ ⦃own : Jwt⦄ ⦃url : UrlCodec⦄ ⦃parser : JwtParser⦄ where
    -- The exchanges of `handleTokenFromIdP`: the user's pseudonym at the RP and the tokens.
    unfoldable pub exchange : LoginWorld → BrokerSessionData → Bytes → Result (Bytes × Tokens)
    exchange w d code = do
      pok ← rename_err "Failed to request PoK from RP" (request_pok_from_rp w d)
      resp ← rename_err "Failed to request token from IdP" (request_token_from_idp w pok code)
      uid_rp ← rename_err "Failed to unblind AUID via RP" (request_unblind_from_rp w d resp.auid)
      tokens ← rename_err "Failed to re-sign tokens" (
          resign_tokens_with_broker_key w.issuer w.now w.jwks w.jwks_again (record {
            access_token = resp.access_token;
            id_token = resp.id_token;
            token_type = resp.token_type;
            refresh_token = resp.refresh_token;
          }))
      ok (uid_rp, tokens)

    -- The end of the handler, behind the issue of the code: the RP's record is read only here, and
    -- the session is dropped.
    abbrev pub send_back :
        Broker
        → LoginWorld
        → Bytes
        → BrokerSessionData
        → Option RpIdentity
        → Dict AuthorizationCode × Result Bytes
        → Broker × Result Bytes
    send_back s w session_id d rp (codes, err _) = (with_codes s codes, err "Failed to issue code")
    send_back s w session_id d rp (codes, panic) = (with_codes s codes, panic)
    send_back s w session_id d none (codes, ok code) = (with_codes s codes, panic)
    send_back s w session_id d (some rp) (codes, ok code) = (
      record s { codes = codes; session_data = erase session_id s.session_data },
      ok (
          rp.callback_url
          ++ (text "?code=" ++ (w.escape code ++ (text "&state=" ++ w.escape d.state)))),
    )

    abbrev pub deliver :
        Broker
        → LoginWorld
        → Bytes
        → BrokerSessionData
        → Result (Bytes × Tokens)
        → Broker × Result Bytes
    deliver s w session_id d (err e) = (s, err e)
    deliver s w session_id d panic = (s, panic)
    deliver s w session_id d (ok (uid_rp, tokens)) =
        send_back s w session_id d (lookup d.tid s.rp_identity)
          (issue_code s.codes w.drawn_code uid_rp d.tid tokens w.now)

    abbrev pub continue :
        Broker → LoginWorld → Bytes → Bytes → Option BrokerSessionData → Broker × Result Bytes
    continue s w session_id code none = (s, err "session data not found or invalid")
    continue s w session_id code (some d) = deliver s w session_id d (exchange w d code)

    -- `handleTokenFromIdP`, with the form's two values: the address that the browser goes to.
    unfoldable pub handle_token_from_idp :
        Broker → LoginWorld → Bytes → Bytes → Broker × Result Bytes
    handle_token_from_idp s w session_id code =
        if is_empty session_id || is_empty code
        then (s, err "session_id not found")
        else continue s w session_id code (lookup session_id s.session_data)
