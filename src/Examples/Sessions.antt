-- ===== src/Examples/Sessions.antt =====
-- The theorems on the Broker's part of a login at concrete inputs.
use orionlink.Prelude.{
  ◌≡◌, refl, none, some, [], ◌∷◌, Bytes, text, Result, ok, err, panic, lookup, bytes_eq,
}
use orionlink.Ecc.Toy.{n0, n1, n2, toy_bls}
use orionlink.Crypto.Toy.{toy_crypto}
use orionlink.Wire.Toy.{toy_codec}
use orionlink.Token.{generate_id_token, generate_access_token}
use orionlink.Token.Toy.{toy_jwt, parse}
use orionlink.Protocol.{AakeGenPokResponse}
use orionlink.Jwks.{
  PublicKey, handle_jwks, verify_id_token, choose, jwk_to_public_key, rsa_public_key_to_jwk,
  decode_either, trim_right,
}
use orionlink.Jwks.BigEndian.{digits}
use orionlink.Jwks.Toy.{toy_url, toy_parser, up, down}
use orionlink.Broker.{Broker, RpIdentity, BrokerSessionData}
use orionlink.Broker.Store.{Tokens, issue_code}
use orionlink.Broker.SingleUse.{issuing, getting, deleting}
use orionlink.Broker.Resign.{resign_tokens_with_broker_key, resign_access, resign_id}
use orionlink.Broker.Login.{
  LoginWorld, exchange, request_pok_from_rp, request_token_from_idp, request_unblind_from_rp,
  handle_token_from_idp,
}
use orionlink.Broker.Delivery.{handle_token_from_idp-once}
use orionlink.Broker.Refines.{perform_all, specified_all, view, perform_all-specified_all}

abbrev tokens : Tokens
tokens = record {
  access_token = text "at";
  id_token = text "it";
  token_type = text "Bearer";
  refresh_token = text "rt";
}

perform_all-specified_all_example :
    let os =
      issuing (some (text "c")) (text "u") (text "rp") tokens 10
      ∷ getting 20 (text "c")
      ∷ getting 30 (text "c")
      ∷ deleting (text "c")
      ∷ [] in
    ((j : Bytes) → view (perform_all os []).0 j ≡ (specified_all os (view [])).0 j)
    × ((perform_all os []).1 ≡ (specified_all os (view [])).1)
perform_all-specified_all_example =
    perform_all-specified_all
      (issuing (some (text "c")) (text "u") (text "rp") tokens 10
        ∷ getting 20 (text "c")
        ∷ getting 30 (text "c")
        ∷ deleting (text "c")
        ∷ [])
      []

abbrev shop : RpIdentity
shop = record {
  tid = text "rp";
  domain_cred = record {
    domain = text "https://rp";
    sigma = some (record { sigma1 = some n1; sigma2 = some n0 });
  };
  callback_url = text "https://rp/cb";
  scopes = text "email" ∷ [];
  user_store = none;
  rp_dh_pks = [];
}

abbrev session : BrokerSessionData
session = record {
  t = n1;
  k = n2;
  rand_sig = record { sigma1 = some n2; sigma2 = some n1 };
  tid = text "rp";
  state = text "st";
}

abbrev broker : Broker
broker = record {
  rp_identity = (text "rp", shop) ∷ [];
  codes = [];
  session_data = (text "s1", session) ∷ [];
  refresh = [];
}

abbrev content_of : Result Bytes → Bytes
content_of (ok t) = t
content_of (err _) = []
content_of panic = []

abbrev access_token : Bytes
access_token =
    content_of (generate_access_token (text "idp") 20 (text "eu") (text "es") (text "acid"))

abbrev id_token : Bytes
id_token =
    content_of (generate_id_token (text "idp") 20 (text "eu") (text "en") (text "ee") (text "acid"))

-- A proof that the Broker passes on.
abbrev pok : AakeGenPokResponse
pok = record {
  sign1 = some (text "sign1");
  sign2 = some (text "sign2");
  c = record { c1 = none; c2 = none; c3 = none };
  r = record { r1 = none; r2 = none; r3 = none };
  z = record { zd = none; zqsk = none; z1 = none; z2 = none; z3 = none };
  e2ee = record { client_pk = none; client_emp_pk = none; idp_emp_key_id = text "7"; msg = none };
}

abbrev key : PublicKey
key = record { n = 3127; e = 3 }

abbrev world : LoginWorld
world = record {
  pok_from_rp = λ req. ok pok;
  token_from_idp = λ req. ok (record {
    auid = text "auid";
    id_token = id_token;
    access_token = access_token;
    token_type = text "Bearer";
    refresh_token = text "rt";
  });
  unblind_from_rp = λ req. ok (text "p");
  jwks = handle_jwks (some key);
  jwks_again = handle_jwks (some key);
  now = 60;
  issuer = text "broker";
  drawn_code = some (text "bc");
  escape = λ s. s;
}

finished :
    (handle_token_from_idp broker world (text "s1") (text "c")).1
    ≡ ok (text "https://rp/cb?code=bc&state=st")
unfolding handle_token_from_idp lookup bytes_eq request_pok_from_rp request_token_from_idp
    request_unblind_from_rp exchange resign_tokens_with_broker_key resign_access resign_id
    verify_id_token choose jwk_to_public_key rsa_public_key_to_jwk handle_jwks decode_either
    trim_right up down digits parse generate_id_token generate_access_token issue_code
finished = refl

handle_token_from_idp-once_example :
    handle_token_from_idp
      (handle_token_from_idp broker world (text "s1") (text "c")).0
      world
      (text "s1")
      (text "d")
    ≡ (
      (handle_token_from_idp broker world (text "s1") (text "c")).0,
      err "session data not found or invalid",
    )
handle_token_from_idp-once_example =
    handle_token_from_idp-once broker world (text "s1") (text "c")
      (text "https://rp/cb?code=bc&state=st") world (text "d") finished refl refl
