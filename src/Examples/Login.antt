-- ===== src/Examples/Login.antt =====
-- The login's and the refresh's theorems at concrete inputs.
use orionlink.Prelude.{
  ℕ, ◌≡◌, ◌≢◌, bytes_eq, panic, is_empty, refl, false, some, none, Option, [], ◌∷◌, Bytes, text,
  Result, ok, err, ◌>>=◌, deref, Dict, lookup, arith, ltb, if◌then◌else◌, ◌+◌,
}
use orionlink.Ecc.Toy.{n0, n1, n2, toy_bls, toy_field, toy_curve}
use orionlink.Crypto.Toy.{toy_crypto}
use orionlink.Wire.{point_to_string}
use orionlink.Wire.Toy.{toy_codec}
use orionlink.Token.{
  registered_for, generate_access_token, generate_refresh_token, validate_refresh_token,
}
use orionlink.Token.Toy.{toy_jwt}
use orionlink.Token.Lifetime.{
  validate_refresh_token-generate_refresh_token, validate_refresh_token-generate_access_token,
}
use orionlink.Session.{
  EphemeralKey, new_session, get_session_key, aes_encrypt_string, aes_decrypt_string,
}
use orionlink.Session.Agreement.{
  public_key, session_key, session_agreement, aes_decrypt_string-aes_encrypt_string,
}
use orionlink.Cred.{supply}
use orionlink.Cred.PsSig.{key_of, randomize_sig, to_json}
use orionlink.Cred.Sums.{inner}
use orionlink.Pok.{geneate_pok, to_proof, verify_pok, commit1, commit2, pok_challenge}
use orionlink.Pok.Complete.{whole, verify_pok-geneate_pok}
use orionlink.Pok.Forged.{identities, verify_pok-identity}
use orionlink.Auid.{generate_auid, unblind_auid}
use orionlink.Auid.Stable.{unblind_auid-randomize_sig}
use orionlink.Ratchet.{PayloadJson}
use orionlink.Ratchet.Idp.{IdpRefresh, handle_broker_request}
use orionlink.Ratchet.Rp.{RpRefresh, decrypt_response}
use orionlink.Ratchet.Healing.{handle_broker_request-decrypt_response-root}
use orionlink.Ratchet.Agreement.{
  root, world, request, response, decrypt_response-handle_broker_request,
}
use orionlink.Examples.{draws, twos}

one_ne_zero : n1 ≢ n0
one_ne_zero h = cc h

abbrev pool : Dict EphemeralKey
pool = (text "7", record { id = text "7"; sk = some n1; pk = some (public_key n1) }) ∷ []

pool_has :
    lookup (text "7") pool
    ≡ some (record { id = text "7"; sk = some n1; pk = some (public_key n1) })
unfolding lookup bytes_eq
pool_has = refl

session_agreement_example :
    (msg : Bytes) × (new_session
        (some n1)
        (some (public_key n1))
        (some (public_key n2))
        (some (public_key n1))
        (some n2)
        (some (5 ∷ 6 ∷ []))
      ≡ ok (session_key n1 n2 n2 n1, public_key n2, msg))
    × (get_session_key pool
          (record { sk = some n2; pk = some (public_key n2) })
          (record {
            client_pk = some (public_key n1);
            client_emp_pk = some (public_key n2);
            idp_emp_key_id = text "7";
            msg = msg;
          })
        ≡ ok (session_key n1 n2 n2 n1))
session_agreement_example = session_agreement n1 n2 n2 n1 (5 ∷ 6 ∷ []) (text "7") pool refl pool_has

-- A key of 32 bytes.
abbrev key32 : Bytes
key32 = toy_crypto.hkdf_expand (1 ∷ []) [] 32

aes_decrypt_string-aes_encrypt_string_example :
    (aes_encrypt_string key32 (text "alice") (some (5 ∷ 6 ∷ [])) >>= λ c.
    aes_decrypt_string key32 c)
    ≡ ok (text "alice")
aes_decrypt_string-aes_encrypt_string_example =
    aes_decrypt_string-aes_encrypt_string key32 (text "alice") (5 ∷ 6 ∷ []) refl refl

-- The domain 2, the factor 1, the secret 1; the first points are 1.
verify_pok-geneate_pok_example :
    (geneate_pok
        (record {
          domain = 2 ∷ [];
          identity_sk = some n1;
          vk1 = some (key_of n1 (n2 ∷ [])).public_key;
          vk2 = some (key_of n1 (n1 ∷ n1 ∷ [])).public_key;
          sigma_bar = some (record { sigma1 = some n1; sigma2 = some n1 });
        })
        (record {
          r_sig1 = some (to_json (some (record { sigma1 = some n1; sigma2 = some n0 })));
          t = some (toy_field.marshal n1);
          state = [];
        })
        (supply draws)
      >>= λ r. to_proof r.0 >>= λ p.
          verify_pok (key_of n1 (n2 ∷ [])).public_key (key_of n1 (n1 ∷ n1 ∷ [])).public_key p)
    ≡ ok tt
unfolding inner
verify_pok-geneate_pok_example =
    verify_pok-geneate_pok n1 n2 n1 n1 n1 n1 n1 (2 ∷ []) [] n1 n0 n1 n1 draws refl refl

verify_pok-identity_example :
    (pok_challenge
        (key_of n1 (n2 ∷ [])).public_key
        (key_of n1 (n1 ∷ n1 ∷ [])).public_key
        (commit1 n1 n2 n2)
        (commit2 n1 n2 n1 n1 n1)
        (toy_curve.smul (toy_field.mul n1 n1) n1)
        (commit1 n2 n1 n2)
        (commit2 n2 n1 n1 n1 n1)
        (toy_curve.smul (toy_field.mul n1 n2) n1)
      >>= λ c.
          verify_pok
            (key_of n1 (n2 ∷ [])).public_key
            (key_of n1 (n1 ∷ n1 ∷ [])).public_key
            (whole c n1 n1 n2 n1 n1 n1 n1 n2 n2 n2 n2 n1 n1 identities identities))
    ≡ ok tt
verify_pok-identity_example = verify_pok-identity n1 n2 n1 n1 n1 n1 n1 n2 n1 n1 n1 n1 n2 n2 n2

unblind_auid-randomize_sig_example :
    (randomize_sig (some (record { sigma1 = some n1; sigma2 = some n2 })) (supply twos) >>= λ r.
    deref r.0.sigma1 >>= λ acid.
    unblind_auid (point_to_string toy_curve (some (generate_auid acid n2))) (some r.1))
    ≡ ok (point_to_string toy_curve (some (toy_curve.smul n2 n1)))
unblind_auid-randomize_sig_example = unblind_auid-randomize_sig n1 n2 n2 twos two_ne_zero
  where
    two_ne_zero : n2 ≢ n0
    two_ne_zero h = cc h

abbrev content_of : Result Bytes → Bytes
content_of (ok t) = t
content_of (err _) = []
content_of panic = []

-- A refresh token of the user `u`, issued at 100, and an access token in its place.
abbrev refresh_token : Bytes
refresh_token =
    content_of (generate_refresh_token (text "idp") 100 (text "u") (text "s") (text "a"))

abbrev access_token : Bytes
access_token = content_of (generate_access_token (text "idp") 100 (text "u") (text "s") (text "a"))

refresh_token_made :
    generate_refresh_token (text "idp") 100 (text "u") (text "s") (text "a") ≡ ok refresh_token
unfolding generate_refresh_token
refresh_token_made = refl

access_token_made :
    generate_access_token (text "idp") 100 (text "u") (text "s") (text "a") ≡ ok access_token
unfolding generate_access_token
access_token_made = refl

validate_refresh_token-generate_refresh_token_example : validate_refresh_token 200 refresh_token ≡ (
    if ltb 200 (100 + 7200)
    then ok (text "s", registered_for (text "idp") (text "u") (text "a") 100 7200)
    else err "invalid token")
validate_refresh_token-generate_refresh_token_example =
    validate_refresh_token-generate_refresh_token (text "idp") (text "u") (text "s") (text "a")
      refresh_token 100 200 refresh_token_made (omega arith)

validate_refresh_token-generate_access_token_example :
    validate_refresh_token 200 access_token
    ≡ ok (text "s", registered_for (text "idp") (text "u") (text "a") 100 1800)
validate_refresh_token-generate_access_token_example =
    validate_refresh_token-generate_access_token (text "idp") (text "u") (text "s") (text "a")
      access_token 100 200 access_token_made (omega arith) (omega arith)

-- The payload is the lifetime before the token.
read_payload : Bytes → Option (Bytes × ℕ)
read_payload [] = none
read_payload (n ∷ token) = some (token, n)

instance abbrev toy_json : PayloadJson
unfolding read_payload
toy_json = record {
  marshal = λ token n. n ∷ token;
  unmarshal = read_payload;
  unmarshal-marshal = λ token n. refl;
}

-- The IdP before its first refresh, and the RP with one key pair.
abbrev idp : IdpRefresh
idp = record { rk = []; ck = []; seeded = false; dh_a = none; isk = n1; ipk = n1 }

abbrev rp : RpRefresh
rp = record { rsk = n2 ∷ []; rpk = n2 ∷ []; rk = []; ck = []; seeded = false; dh_b = none }

-- The access token that is minted at 200 for the refresh token above.
abbrev minted : Bytes
minted = content_of (generate_access_token (text "idp") 200 (text "u") (text "s") (text "a"))

minted_made : generate_access_token (text "idp") 200 (text "u") (text "s") (text "a") ≡ ok minted
unfolding generate_access_token
minted_made = refl

minted_full : is_empty minted ≡ false
unfolding generate_access_token
minted_full = refl

refresh_full : is_empty refresh_token ≡ false
unfolding generate_refresh_token
refresh_full = refl

valid :
    validate_refresh_token 200 refresh_token
    ≡ ok (text "s", registered_for (text "idp") (text "u") (text "a") 100 7200)
valid =
    validate_refresh_token-generate_refresh_token (text "idp") (text "u") (text "s") (text "a")
      refresh_token 100 200 refresh_token_made (omega arith)

decrypt_response-handle_broker_request_example :
    (c : Bytes) × ((handle_broker_request idp
        (world key32 n1 (5 ∷ 6 ∷ []) 200 (text "idp"))
        (request n2 0 refresh_token)).1
      ≡ ok (response n1 0 c))
    × (((decrypt_response rp key32 (response n1 0 c)).1 ≡ ok minted)
        × ((handle_broker_request idp
              (world key32 n1 (5 ∷ 6 ∷ []) 200 (text "idp"))
              (request n2 0 refresh_token)).0.rk
            ≡ (decrypt_response rp key32 (response n1 0 c)).0.rk)
        × ((handle_broker_request idp
              (world key32 n1 (5 ∷ 6 ∷ []) 200 (text "idp"))
              (request n2 0 refresh_token)).0.ck
            ≡ (decrypt_response rp key32 (response n1 0 c)).0.ck))
decrypt_response-handle_broker_request_example =
    decrypt_response-handle_broker_request idp rp key32 (5 ∷ 6 ∷ []) (text "idp") 200 0 n2 n1
      refresh_token minted (text "s") (registered_for (text "idp") (text "u") (text "a") 100 7200)
      refl refl refl refl refl refl refresh_full valid minted_made minted_full

-- A refresh token that does not validate, and a ciphertext that does not decrypt.
handle_broker_request-decrypt_response-root_example :
    root
      (handle_broker_request idp
        (world key32 n1 (5 ∷ 6 ∷ []) 200 (text "idp"))
        (request n2 0 (text "bad"))).0.seeded
      (handle_broker_request idp
        (world key32 n1 (5 ∷ 6 ∷ []) 200 (text "idp"))
        (request n2 0 (text "bad"))).0.rk
      key32
    ≡ root
        (decrypt_response rp key32 (response n1 0 [])).0.seeded
        (decrypt_response rp key32 (response n1 0 [])).0.rk
        key32
handle_broker_request-decrypt_response-root_example =
    handle_broker_request-decrypt_response-root idp rp key32 (5 ∷ 6 ∷ []) (text "idp") (text "bad")
      [] 200 0 n2 n1 refl refl refl refl refl
