-- ===== src/Examples/Stores.antt =====
-- The theorems on the Broker's and the IdP's stores at concrete inputs.
use orionlink.Prelude.{
  ◌≡◌, ◌≢◌, refl, false, some, none, [], ◌∷◌, text, Result, ok, err, Dict, lookup, bytes_eq, arith,
}
use orionlink.Ecc.Toy.{n0, n1, toy_bls}
use orionlink.Crypto.Toy.{toy_crypto}
use orionlink.Wire.Toy.{toy_codec}
use orionlink.Token.Toy.{toy_jwt}
use orionlink.Protocol.{RefreshTokenFromBrokerRequest, RefreshTokenToRpResponse}
use orionlink.Broker.Store.{AuthorizationCode, Tokens, taken, get_code}
use orionlink.Broker.SingleUse.{issuing, getting, deleting, run, get_code-once}
use orionlink.Broker.{Broker, RpIdentity, handle_token_from_broker, refresh_token_of}
use orionlink.Broker.Endpoints.{handle_token_from_broker-refresh_token_of}
use orionlink.Ratchet.Relay.{BrokerRefresh, Relayed, refresh_with_idp, refresh_with_idp-Relayed}

one_ne_zero : n1 ≢ n0
one_ne_zero h = cc h

abbrev tokens : Tokens
tokens = record {
  access_token = text "at";
  id_token = text "it";
  token_type = text "Bearer";
  refresh_token = text "rt";
}

abbrev code_data : AuthorizationCode
code_data = record {
  code = text "c";
  user_id = text "u";
  rpid = text "rp";
  tokens = tokens;
  created_at = 10;
  expires_at = 50;
  used = false;
}

abbrev codes : Dict AuthorizationCode
codes = (text "c", code_data) ∷ []

got : (get_code codes 20 (text "c")).1 ≡ ok (taken code_data)
unfolding get_code lookup bytes_eq
got = refl

other_code : bytes_eq (text "d") (text "c") ≡ false
unfolding bytes_eq
other_code = refl

get_code-once_example :
    (get_code
      (run
        (issuing (some (text "d")) (text "u") (text "rp") tokens 25
          ∷ getting 26 (text "d")
          ∷ deleting (text "d")
          ∷ [])
        (get_code codes 20 (text "c")).0)
      30
      (text "c")).1
    ≡ err "authorization code not found"
get_code-once_example =
    get_code-once codes 20 30 (text "c") (taken code_data)
      (issuing (some (text "d")) (text "u") (text "rp") tokens 25
        ∷ getting 26 (text "d")
        ∷ deleting (text "d")
        ∷ [])
      got (other_code, tt)

-- An RP whose domain credential is a signature on the attribute 1 under the secrets 1 and 2.
abbrev rp : RpIdentity
rp = record {
  tid = text "rp";
  domain_cred = record {
    domain = text "https://rp";
    sigma = some (record { sigma1 = some n1; sigma2 = some n0 });
  };
  callback_url = text "https://rp/cb";
  scopes = [];
  user_store = none;
  rp_dh_pks = (1 ∷ []) ∷ [];
}

abbrev broker : Broker
broker = record {
  rp_identity = (text "rp", rp) ∷ [];
  codes = codes;
  session_data = [];
  refresh = [];
}

stored : lookup (text "c") codes ≡ some code_data
unfolding lookup bytes_eq
stored = refl

known : lookup (text "rp") broker.rp_identity ≡ some rp
unfolding lookup bytes_eq
known = refl

handle_token_from_broker-refresh_token_of_example :
    ((handle_token_from_broker broker 20 (text "c")).1
      ≡ ok (record {
        uid_rp = text "u";
        id_token = text "it";
        access_token = text "at";
        token_type = text "Bearer";
      }))
    × ((rp' : RpIdentity) × (refresh_token_of
            (handle_token_from_broker broker 20 (text "c")).0.rp_identity
            (text "rp")
            (text "u")
          ≡ ok (rp', text "rt")))
handle_token_from_broker-refresh_token_of_example =
    handle_token_from_broker-refresh_token_of broker 20 (text "c") code_data rp stored (omega arith)
      refl known refl refl

-- An IdP that answers with its header 9 and what it was sent.
abbrev post : RefreshTokenFromBrokerRequest → Result RefreshTokenToRpResponse
post req = ok (record { hdr = some (9 ∷ []); seq = req.seq; c = req.hdr })

abbrev refresh_state : BrokerRefresh
refresh_state = record { seq = 1; rp_dh_pks = (1 ∷ []) ∷ (2 ∷ []) ∷ []; last_idp_hdr = none }

abbrev refresh_states : Dict BrokerRefresh
refresh_states = (text "rp", refresh_state) ∷ []

has_state : lookup (text "rp") refresh_states ≡ some refresh_state
unfolding lookup bytes_eq
has_state = refl

refresh_with_idp-Relayed_example :
    Relayed post refresh_states
      (text "rp")
      (text "rt")
      refresh_state
      (refresh_with_idp post refresh_states (text "rp") [] (text "rt"))
refresh_with_idp-Relayed_example =
    refresh_with_idp-Relayed post refresh_states (text "rp") (text "rt") [] refresh_state has_state
      refl refl refl (omega arith, omega arith)
