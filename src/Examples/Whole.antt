-- ===== src/Examples/Whole.antt =====
-- The theorems on a whole login, and on the RP's part of it, at concrete inputs.
use orionlink.Prelude.{
  ◌≡◌, refl, false, true, none, some, [], ◌∷◌, Bytes, text, Result, ok, err, panic, lookup,
  bytes_eq, arith,
}
use orionlink.Ecc.Toy.{n0, n1, n2, toy_bls, toy_curve}
use orionlink.Crypto.Toy.{toy_crypto, open_tagged}
use orionlink.Wire.Toy.{toy_codec}
use orionlink.Token.Toy.{toy_jwt}
use orionlink.Cred.{supply}
use orionlink.Cred.PsSig.{key_of}
use orionlink.Cred.Sums.{inner}
use orionlink.Session.Agreement.{public_key}
use orionlink.Protocol.{AakeGenPokResponse}
use orionlink.Pok.{ProofPok}
use orionlink.Idp.{IdpServer, generate_tokens, admit}
use orionlink.Idp.Store.{AuthorizationCode}
use orionlink.Broker.Login.{acid_string, pok_request}
use orionlink.Broker.Store.{Tokens}
use orionlink.Broker.Resign.{resign_tokens_with_broker_key}
use orionlink.Token.{generate_id_token}
use orionlink.Token.Toy.{parse}
use orionlink.Session.{aes_encrypt_string, aes_decrypt_string, aes_gcm_encrypt, aes_gcm_decrypt}
use orionlink.Jwks.BigEndian.{digits}
use orionlink.Jwks.{
  PublicKey, handle_jwks, verify_id_token, choose, jwk_to_public_key, rsa_public_key_to_jwk,
  decode_either, trim_right,
}
use orionlink.Jwks.Toy.{toy_url, toy_parser, toy_signer, up, down}
use orionlink.Rp.{RpServer, handle_aake_gen_pok}
use orionlink.Rp.Store.{RpUserState, get_aake_state, save_user_state}
use orionlink.Rp.Callback.{
  CallbackWorld, RpSession, request_token_from_broker, check_callback, read_user, handle_callback,
}
use orionlink.Rp.Claims.{Works, read_user-generate_tokens}
use orionlink.Rp.Csrf.{Checked, handle_callback-Checked}
use orionlink.Login.{session_of, admit-handle_aake_gen_pok}
use orionlink.Examples.{draws}

-- An RP at the domain 2 with the secret 1 and a secret credential on both, and the public keys of an
-- IdP with the secrets 1 and 2, and 1, 1 and 1.
abbrev rp : RpServer
rp = record {
  tid = text "rp";
  domain = 2 ∷ [];
  identity_sk = some n1;
  vk1 = some (key_of n1 (n2 ∷ [])).public_key;
  vk2 = some (key_of n1 (n1 ∷ n1 ∷ [])).public_key;
  idp_aake_pk = some (public_key n2);
  domain_cred = record { domain = []; sigma = none };
  secret_cred = record {
    domain = 2 ∷ [];
    identity_sk = some n1;
    sigma_bar = some (record { sigma1 = some n1; sigma2 = some n1 });
  };
  store = record { user_states = []; aake_states = [] };
  refresh = record { rsk = []; rpk = []; rk = []; ck = []; seeded = false; dh_b = none };
  session_ks = [];
}

abbrev code_data : AuthorizationCode
code_data = record {
  code = text "c";
  oprf_enc = text "d";
  acid = acid_string (session_of n1 n0 n1 n2 (text "rp") (text "st"));
  uid = text "u";
  username = text "alice";
  email = text "a@b";
  scope = text "s";
  expires_at = 50;
  used = false;
}

abbrev server : IdpServer
server = record {
  codes = (text "c", code_data) ∷ [];
  emp_keys = (text "7", record { id = text "7"; sk = some n1; pk = some (public_key n1) }) ∷ [];
  authorized = [];
  identity = record { sk = some n2; pk = some (public_key n2) };
  vk1 = (key_of n1 (n2 ∷ [])).public_key;
  vk2 = (key_of n1 (n1 ∷ n1 ∷ [])).public_key;
  session_ks = [];
  issuer = text "idp";
}

has_key :
    lookup (text "7") server.emp_keys
    ≡ some (record { id = text "7"; sk = some n1; pk = some (public_key n1) })
unfolding lookup bytes_eq
has_key = refl

admit-handle_aake_gen_pok_example :
    let after =
      handle_aake_gen_pok rp
        (ok (record { kid = text "7"; pk = some (toy_curve.compress (public_key n1)) }))
        true
        (pok_request (session_of n1 n0 n1 n2 (text "rp") (text "st")))
        (supply draws)
        (some n2)
        (some (5 ∷ 6 ∷ [])) in
    (resp : AakeGenPokResponse) × (proof : ProofPok) × (ks : Bytes) × (after.1 ≡ ok resp)
    × (get_aake_state after.0.store (text "st") ≡ some (record { ks = ks }))
    × (admit server code_data (record { pok = resp; code = text "c" }) ≡ ok (proof, ks))
    × (proof.sign1 ≡ record { sigma1 = some n1; sigma2 = some n0 })
unfolding inner
admit-handle_aake_gen_pok_example =
    admit-handle_aake_gen_pok server rp true code_data (text "c") n1 n2 n1 n1 n1 n1 n1 n2 n2 n1 n2
      n1 n0 n1 n1 draws (text "rp") (text "st") (text "7") (5 ∷ 6 ∷ []) refl refl refl refl refl
      refl refl has_key refl refl refl

-- A key of 32 bytes.
abbrev key32 : Bytes
key32 = toy_crypto.hkdf_expand (1 ∷ []) [] 32

abbrev broker_key : PublicKey
broker_key = record { n = 3233; e = 65537 }

abbrev idp_key : PublicKey
idp_key = record { n = 3127; e = 3 }

abbrev world : CallbackWorld
world = record {
  now = 120;
  post = λ req. ok (record {
    uid_rp = text "p";
    id_token = [];
    access_token = text "at";
    token_type = text "Bearer";
  });
  jwks = handle_jwks (some broker_key);
  savable = true;
  escape = λ s. s;
}

signs_texts : Works toy_jwt
signs_texts c = (_, refl, refl)

-- Tokens made at 20, signed anew at 70, and read at 120.
read_user-generate_tokens_example :
    (it at rt : Bytes) × (generate_tokens
        (text "idp")
        (record { now = 20; nonce = λ i. some (i ∷ i ∷ []); writable = true })
        code_data
        key32
      ≡ ok (it, at, rt))
    × ((tokens : Tokens) × (resign_tokens_with_broker_key
            (text "broker")
            70
            (handle_jwks (some idp_key))
            (handle_jwks (some idp_key))
            (record {
              access_token = at;
              id_token = it;
              token_type = text "Bearer";
              refresh_token = rt;
            })
          ≡ ok tokens)
        × ((uid_rp : Bytes)
            → read_user world key32 (record {
              uid_rp = uid_rp;
              id_token = tokens.id_token;
              access_token = tokens.access_token;
              token_type = tokens.token_type;
            })
              ≡ ok (record {
                uid = uid_rp;
                username = text "alice";
                email = text "a@b";
                sub = text "u";
                access_token = tokens.access_token;
              })))
read_user-generate_tokens_example =
    read_user-generate_tokens toy_jwt toy_jwt idp_key broker_key (toy_signer idp_key)
      (toy_signer broker_key) (omega arith, omega arith, omega arith)
      (omega arith, omega arith, omega arith) signs_texts signs_texts (text "idp") (text "broker")
      20 70 120 code_data key32 (λ i. i ∷ i ∷ []) true world refl (λ i. refl) (omega arith)
      (omega arith) (omega arith) (omega arith) (omega arith) refl refl

abbrev content_of : Result Bytes → Bytes
content_of (ok t) = t
content_of (err _) = []
content_of panic = []

-- An ID token of the user "alice" under the Broker's key, with the name encrypted.
abbrev id_token : Bytes
unfolding aes_encrypt_string aes_gcm_encrypt
id_token = content_of (
    generate_id_token (text "broker") 70 (text "")
      (content_of (aes_encrypt_string key32 (text "alice") (some (5 ∷ 6 ∷ [])))) (text "")
      (text "acid"))

abbrev answering : CallbackWorld
answering = record world {
  post = λ req. ok (record {
    uid_rp = text "p";
    id_token = id_token;
    access_token = text "at";
    token_type = text "Bearer";
  });
}

abbrev waiting : RpServer
waiting = record rp {
  store = record { user_states = []; aake_states = (text "st", record { ks = key32 }) ∷ [] };
}

abbrev session : RpSession
session = record { state = some (text "st"); rpuser = none }

logged_in :
    (handle_callback waiting answering (ok session) (text "st") (text "c") [] []).1
    ≡ ok (
      record session {
        rpuser = some (record {
          uid = text "p";
          username = text "alice";
          email = [];
          sub = [];
          access_token = text "at";
        });
      },
      text "/ssso/home?startTime=",
    )
unfolding handle_callback check_callback get_aake_state lookup bytes_eq request_token_from_broker
    read_user verify_id_token choose jwk_to_public_key rsa_public_key_to_jwk handle_jwks
    decode_either trim_right up down aes_encrypt_string aes_gcm_encrypt aes_decrypt_string
    aes_gcm_decrypt parse generate_id_token open_tagged digits
logged_in = refl

handle_callback-Checked_example :
    (sess : RpSession) × (u : RpUserState) × Checked waiting answering
      (ok session)
      (text "st")
      (text "c")
      sess
      u
    × (record session {
      rpuser = some (record {
        uid = text "p";
        username = text "alice";
        email = [];
        sub = [];
        access_token = text "at";
      });
    }
        ≡ record sess { rpuser = some u.user })
    × ((handle_callback waiting answering (ok session) (text "st") (text "c") [] []).0
        ≡ record waiting { store = save_user_state waiting.store u.user.uid (some u) })
handle_callback-Checked_example =
    handle_callback-Checked waiting answering (ok session) (text "st") (text "c") [] [] _ _
      logged_in
