-- ===== src/Examples/Redeem.antt =====
-- The theorems on the IdP's token endpoint at a concrete request.
use orionlink.Prelude.{
  ◌≡◌, ◌≢◌, ◌⊎◌, arith, none, refl, true, false, some, [], ◌∷◌, ◌++◌, Bytes, text, Result, ok, err,
  panic, lookup, bytes_eq,
}
use orionlink.Ecc.Toy.{n0, n1, n2, to_bytes, toy_bls}
use orionlink.Crypto.Toy.{toy_crypto, open_tagged}
use orionlink.Wire.{acid_text, point_to_string, bytes_to_string, bytes_to_point, bytes_to_scalar}
use orionlink.Wire.Toy.{toy_codec, parse, shifted, unshifted}
use orionlink.Token.{generate_id_token, generate_access_token, generate_refresh_token}
use orionlink.Token.Toy.{toy_jwt}
use orionlink.Session.{
  get_session_key, x3_key_exchange_idp, dh, derive_secret, derive_session_key, aes_gcm_encrypt,
  aes_gcm_decrypt, aes_encrypt_string,
}
use orionlink.Session.Agreement.{public_key, shared}
use orionlink.Cred.PsSig.{key_of, from_json}
use orionlink.Cred.Nizk.{compress_all}
use orionlink.Pok.{to_proof, verify_pok, check_sign, pok_challenge}
use orionlink.Protocol.{AakeGenPokResponse, AakeTokenRequest, AakeTokenResponse}
use orionlink.Idp.{
  IdpServer, Surroundings, with_codes, to_e2ee_data, admit, issue, generate_tokens, handle_token,
}
use orionlink.Prelude.{Dict, List}
use orionlink.Idp.Revocation.{IsWithout, get_all-delete}
use orionlink.Idp.Short.{handle_token-short}
use orionlink.Idp.Store.{AuthorizedUserData, get_all, delete, AuthorizationCode, get_code}
use orionlink.Idp.Redeem.{Issued, handle_token-Issued, handle_token-once}

-- The session key of the exchange, and the RP's confirmation of it.
abbrev ks : Bytes
unfolding derive_session_key derive_secret
ks = derive_session_key (shared n1 n2 n2 n1)

abbrev confirmation : Bytes
confirmation =
    (5 ∷ 6 ∷ [])
    ++ toy_crypto.seal ks (5 ∷ 6 ∷ []) (to_bytes n2 ++ to_bytes n1) (to_bytes n1 ++ to_bytes n2)

-- A proof whose points and scalars are all zero.
abbrev pok : AakeGenPokResponse
pok = record {
  sign1 = some (to_bytes n0 ++ to_bytes n0);
  sign2 = some (to_bytes n0 ++ to_bytes n0);
  c = record { c1 = some (to_bytes n0); c2 = some (to_bytes n0); c3 = some (to_bytes n0) };
  r = record { r1 = some (to_bytes n0); r2 = some (to_bytes n0); r3 = some (to_bytes n0) };
  z = record {
    zd = some (to_bytes n0);
    zqsk = some (to_bytes n0);
    z1 = some (to_bytes n0);
    z2 = some (to_bytes n0);
    z3 = some (to_bytes n0);
  };
  e2ee = record {
    client_pk = some (to_bytes n1);
    client_emp_pk = some (to_bytes n2);
    idp_emp_key_id = text "7";
    msg = some confirmation;
  };
}

abbrev token_request : AakeTokenRequest
token_request = record { pok = pok; code = text "c" }

abbrev code_data : AuthorizationCode
code_data = record {
  code = text "c";
  oprf_enc = text "d";
  acid = acid_text (toy_codec.encode (to_bytes n0)) (toy_codec.encode (to_bytes n0));
  uid = text "u";
  username = text "alice";
  email = text "a@b";
  scope = text "s";
  expires_at = 50;
  used = false;
}

abbrev server : IdpServer
server = record {
  codes = (text "c", code_data) ∷ [];
  emp_keys = (text "7", record { id = text "7"; sk = some n1; pk = some (public_key n1) }) ∷ [];
  authorized = [];
  identity = record { sk = some n2; pk = some (public_key n2) };
  vk1 = (key_of n1 (n2 ∷ [])).public_key;
  vk2 = (key_of n1 (n1 ∷ n1 ∷ [])).public_key;
  session_ks = [];
  issuer = text "idp";
}

abbrev surroundings : Surroundings
surroundings = record { now = 20; nonce = λ i. some (i ∷ i ∷ []); writable = true }

abbrev response_of : Result AakeTokenResponse → AakeTokenResponse
response_of (ok resp) = resp
response_of (err _) = record {
  auid = [];
  id_token = [];
  access_token = [];
  token_type = [];
  refresh_token = [];
}
response_of panic = record {
  auid = [];
  id_token = [];
  access_token = [];
  token_type = [];
  refresh_token = [];
}

abbrev answer : AakeTokenResponse
answer = response_of (handle_token server surroundings token_request).1

answered : (handle_token server surroundings token_request).1 ≡ ok answer
unfolding handle_token get_code lookup bytes_eq admit to_proof from_json verify_pok check_sign
    pok_challenge compress_all bytes_to_scalar bytes_to_point parse shifted unshifted to_e2ee_data
    get_session_key x3_key_exchange_idp dh derive_session_key derive_secret aes_gcm_decrypt
    open_tagged aes_gcm_encrypt aes_encrypt_string issue generate_tokens generate_id_token
    generate_access_token generate_refresh_token point_to_string bytes_to_string
answered = refl

handle_token-Issued_example :
    Issued server surroundings token_request
      (handle_token server surroundings token_request).0
      answer
handle_token-Issued_example = handle_token-Issued server surroundings token_request answer answered

handle_token-once_example :
    (handle_token (handle_token server surroundings token_request).0 surroundings token_request).1
    ≡ err "invalid code"
handle_token-once_example =
    handle_token-once server surroundings surroundings token_request token_request answer answered
      refl

abbrev record_of : Bytes → Bytes → AuthorizedUserData
record_of uid acid = record {
  acid = acid;
  uid = uid;
  auid = text "p";
  oprf_enc = [];
  username = [];
  email = [];
  scope = [];
  id_token = [];
  access_token = [];
  refresh_token = [];
}

abbrev authorized : Dict (List AuthorizedUserData)
authorized = (text "u", record_of (text "u") (text "1") ∷ record_of (text "u") (text "2") ∷ []) ∷ []

get_all-delete_example :
    let before = get_all authorized (some (text "u")) in
    let after = get_all (delete authorized (some (text "u")) (some (text "2"))) (some (text "u")) in
    ((text "u" ≡ text "u") × IsWithout (text "2") before after)
    ⊎ ((text "u" ≢ text "u") × (after ≡ before))
get_all-delete_example = get_all-delete authorized (text "u") (text "2") (text "u")

live : (get_code server.codes 20 (text "c")).1 ≡ ok code_data
unfolding get_code lookup bytes_eq
live = refl

not_null : bytes_eq [] (text "null") ≡ false
unfolding bytes_eq
not_null = refl

handle_token-short_example :
    handle_token server surroundings (record { pok = record pok { sign1 = none }; code = text "c" })
    ≡ (with_codes server (get_code server.codes 20 (text "c")).0, panic)
handle_token-short_example =
    handle_token-short server surroundings
      (record { pok = record pok { sign1 = none }; code = text "c" }) code_data live not_null
      (omega arith)
