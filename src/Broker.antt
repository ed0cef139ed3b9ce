-- ===== src/Broker.antt =====
-- The Broker's endpoints: Broker/handler.go and Broker/aaka.go.
pub mod Store
pub mod SingleUse
pub mod Refines
pub mod Endpoints
pub mod Resign
pub mod Resigned
pub mod Login
pub mod Delivery
use orionlink.Prelude.{
  ℕ, Bool, true, false, not, Option, none, some, List, [], ◌∷◌, Bytes, bytes_eq, is_empty, Result,
  ok, err, panic, ◌>>=◌, ◌>>◌, deref, or_err, fail_if, rename_err, if◌then◌else◌, Dict, lookup,
  insert,
}
use orionlink.Ecc.{Bls, Scalar}
use orionlink.Cred.{Rng, PsSignMsg, DomainCredential}
use orionlink.Cred.PsSig.{randomize_sig}
use orionlink.Protocol.{
  AakeTokenToRpResponse, RefreshTokenFromBrokerRequest, RefreshTokenToRpResponse,
}
use orionlink.Ratchet.Relay.{BrokerRefresh, refresh_with_idp}
use orionlink.Broker.Store.{AuthorizationCode, User, save_user, get_user, get_code, delete_code}

module _ ⦃b : Bls⦄ where
  pub record RpIdentity : Type 0 where
    pub tid : Bytes
    pub domain_cred : DomainCredential
    pub callback_url : Bytes
    pub scopes : List Bytes
    pub user_store : Option (Dict User)
    pub rp_dh_pks : List Bytes

  pub record BrokerSessionData : Type 0 where
    pub t : Scalar
    pub k : Scalar
    pub rand_sig : PsSignMsg
    pub tid : Bytes
    pub state : Bytes

  -- The Broker's stores, and the state of its refresh helper.
  pub record Broker : Type 0 where
    pub rp_identity : Dict RpIdentity
    pub codes : Dict AuthorizationCode
    pub session_data : Dict BrokerSessionData
    pub refresh : Dict BrokerRefresh

  -- `generateSessionData`, for an RP that is registered.
  unfoldable pub generate_session_data :
      RpIdentity → Bytes → Bytes → Bytes → Rng → Result BrokerSessionData
  generate_session_data rp tid state redirect_url rng = do
    fail_if (not (bytes_eq rp.domain_cred.domain redirect_url)) "RP redirect_uri not match"
    (rsign, k, t) ← rename_err "randomize sig failed" (randomize_sig rp.domain_cred.sigma rng)
    ok (record { t = t; k = k; rand_sig = rsign; tid = tid; state = state })

  abbrev pub with_session : Broker → Bytes → BrokerSessionData → Broker
  with_session s id entry = record {
    rp_identity = s.rp_identity;
    codes = s.codes;
    session_data = insert id entry s.session_data;
    refresh = s.refresh;
  }

  -- The end of `handleRandomizeRPID`: what is stored under the session id that is drawn. The
  -- session keeps two strings of the query, which fiber gives as views of a buffer that it uses
  -- again: `later` is what such a string reads behind the handler.
  abbrev pub open_session :
      (later : Bytes → Bytes)
      → Broker
      → Result BrokerSessionData
      → Option Bytes
      → Broker × Result (Bytes × BrokerSessionData)
  open_session later s (err _) id = (s, err "session data generate failed")
  open_session later s panic id = (s, panic)
  open_session later s (ok _) none = (s, err "failed to generate session_id")
  open_session later s (ok entry) (some id) = (
    with_session s id (record entry { tid = later entry.tid; state = later entry.state }),
    ok (id, entry),
  )

  -- `handleRandomizeRPID`, without the cookies that repeat the session's values.
  unfoldable pub handle_randomize_rpid :
      (later : Bytes → Bytes)
      → Broker
      → Bytes
      → Bytes
      → Bytes
      → Rng
      → Option Bytes
      → Broker × Result (Bytes × BrokerSessionData)
  handle_randomize_rpid later s tid state redirect_url rng id =
      if is_empty tid
      then (s, err "RP need to register first")
      else elim (lookup tid s.rp_identity) [
        | none ↦ (s, err "RP need to register first")
        | some rp ↦ open_session later s (generate_session_data rp tid state redirect_url rng) id
      ]

  -- `rpInfo.UserStore.SaveUser(user)`, with the store made if it is missing.
  abbrev pub with_user : RpIdentity → User → RpIdentity
  with_user rp user = record rp {
    user_store =
        some (save_user (elim rp.user_store [ none ↦ [] | some users ↦ users ]) (some user));
  }

  abbrev pub with_codes : Broker → Dict AuthorizationCode → Broker
  with_codes s codes = record {
    rp_identity = s.rp_identity;
    codes = codes;
    session_data = s.session_data;
    refresh = s.refresh;
  }

  -- What `handleTokenFromBroker` does with a code's data and the RP that they name.
  abbrev pub bind :
      Broker → Bytes → AuthorizationCode → Option RpIdentity → Broker × Result AakeTokenToRpResponse
  bind s code ac none = (s, err "RP not found for RPID")
  bind s code ac (some rp) = (
    record {
      rp_identity =
          insert ac.rpid (with_user rp (record { uid = ac.user_id; token = some ac.tokens }))
            s.rp_identity;
      codes = delete_code s.codes code;
      session_data = s.session_data;
      refresh = s.refresh;
    },
    ok (record {
      uid_rp = ac.user_id;
      id_token = ac.tokens.id_token;
      access_token = ac.tokens.access_token;
      token_type = ac.tokens.token_type;
    }),
  )

  abbrev pub redeem :
      Broker
      → Bytes
      → Dict AuthorizationCode × Result AuthorizationCode
      → Broker × Result AakeTokenToRpResponse
  redeem s code (codes, ok ac) = bind (with_codes s codes) code ac (lookup ac.rpid s.rp_identity)
  redeem s code (codes, err _) = (with_codes s codes, err "invalid code")
  redeem s code (codes, panic) = (with_codes s codes, panic)

  -- `handleTokenFromBroker`, at a time.
  unfoldable pub handle_token_from_broker :
      Broker → ℕ → Bytes → Broker × Result AakeTokenToRpResponse
  handle_token_from_broker s now code = redeem s code (get_code s.codes now code)

  abbrev pub with_refresh : Broker → Dict BrokerRefresh → Broker
  with_refresh s refresh = record {
    rp_identity = s.rp_identity;
    codes = s.codes;
    session_data = s.session_data;
    refresh = refresh;
  }

  -- The refresh token that is stored for a user of an RP.
  abbrev pub refresh_token_of : Dict RpIdentity → Bytes → Bytes → Result (RpIdentity × Bytes)
  refresh_token_of rps tid uid = do
    rp ← or_err (lookup tid rps) "RP not found for tid"
    users ← or_err rp.user_store "RP not found for tid"
    user ← or_err (get_user users uid) "refresh token not found for uid"
    tokens ← or_err user.token "refresh token not found for uid"
    fail_if (is_empty tokens.refresh_token) "refresh token not found for uid"
    ok (rp, tokens.refresh_token)

  -- `handleRefreshTokenFromRP`, where `post` is the exchange with the IdP.
  unfoldable pub handle_refresh_token_from_rp :
      (RefreshTokenFromBrokerRequest → Result RefreshTokenToRpResponse)
      → Broker
      → Bytes
      → Bytes
      → Broker × Result RefreshTokenToRpResponse
  handle_refresh_token_from_rp post s tid uid_rp =
      if is_empty tid
      then (s, err "missing tid or uid_rp")
      else if is_empty uid_rp
      then (s, err "missing tid or uid_rp")
      else elim (refresh_token_of s.rp_identity tid uid_rp) [
        | err e ↦ (s, err e)
        | panic ↦ (s, panic)
        | ok (rp, token) ↦
            let after = refresh_with_idp post s.refresh tid rp.rp_dh_pks token in
            (with_refresh s after.0, rename_err "refresh with idp failed" after.1)
      ]
