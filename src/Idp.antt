-- ===== src/Idp.antt =====
-- IdP/aake.go: the IdP's token endpoint of the login.
pub mod Store
pub mod Admission
pub mod Redeem
pub mod Short
pub mod Revocation
pub mod EmpKeys
pub mod KeyFile
pub mod Consent
use orionlink.Prelude.{
  ℕ, zero, suc, ◌+◌, Bool, true, false, not, ◌||◌, Option, none, some, List, [], ◌∷◌, Bytes, Slice,
  bytes_eq, content, text, Result, ok, err, panic, ◌>>=◌, ◌>>◌, deref, or_err, fail_if, rename_err,
  if◌then◌else◌, Dict, lookup,
}
use orionlink.Ecc.{Bls, Scalar, G1}
use orionlink.Crypto.{Crypto}
use orionlink.Wire.{Codec, bytes_to_point, point_to_string}
use orionlink.Session.{DhKey, EphemeralKey, E2eeData, get_session_key, aes_encrypt_string}
use orionlink.Cred.{PsPublicKey}
use orionlink.Protocol.{E2ee, AakeTokenRequest, AakeTokenResponse}
use orionlink.Pok.{ProofPok, to_proof, verify_pok}
use orionlink.Auid.{generate_auid, hash_string_to_scalar}
use orionlink.Token.{Jwt, generate_id_token, generate_access_token, generate_refresh_token}
use orionlink.Idp.Store.{AuthorizationCode, AuthorizedUserData, get_code, delete_code, add}

module _ ⦃b : Bls⦄ where
  -- What `handleToken` reads and writes of the server. `session_ks` is the file of the persisted
  -- K_S.
  pub record IdpServer : Type 0 where
    pub codes : Dict AuthorizationCode
    pub emp_keys : Dict EphemeralKey
    pub authorized : Dict (List AuthorizedUserData)
    pub identity : DhKey
    pub vk1 : PsPublicKey
    pub vk2 : PsPublicKey
    pub session_ks : Bytes
    pub issuer : Bytes

  -- The time, the nonces that are drawn, and whether the file of K_S can be written.
  pub record Surroundings : Type 0 where
    pub now : ℕ
    pub nonce : ℕ → Option Bytes
    pub writable : Bool

  unfoldable pub to_e2ee_data : E2ee → Result E2eeData
  to_e2ee_data e = do
    client_pk ← bytes_to_point b.g1 e.client_pk
    client_emp_pk ← bytes_to_point b.g1 e.client_emp_pk
    ok (record {
      client_pk = client_pk;
      client_emp_pk = client_emp_pk;
      idp_emp_key_id = e.idp_emp_key_id;
      msg = content e.msg;
    })

  module _ ⦃h : Crypto⦄ ⦃codec : Codec⦄ where
    -- What `handleToken` checks behind the code: the proof, that its credential is the one the user
    -- has consented to, and the key exchange. The proof and the session key are the result.
    unfoldable pub admit :
        IdpServer → AuthorizationCode → AakeTokenRequest → Result (ProofPok × Bytes)
    admit s ac req = do
      proof ← rename_err "invalid proof" (to_proof req.pok)
      rename_err "invalid proof" (verify_pok s.vk1 s.vk2 proof)
      (sigma1, sigma2) ← or_err (codec.parse_acid ac.acid) "malformed consent acid"
      fail_if
          (not (bytes_eq (point_to_string b.g1 proof.sign1.sigma1) sigma1)
            || not (bytes_eq (point_to_string b.g1 proof.sign1.sigma2) sigma2))
          "acid mismatch: consent credential != issuance credential"
      edata ← rename_err "invalid e2ee data" (to_e2ee_data req.pok.e2ee)
      ks ← rename_err "invalid session key" (get_session_key s.emp_keys s.identity edata)
      ok (proof, ks)

    module _ ⦃jwt : Jwt⦄ where
      -- `generateTokens`: the ID token, the access token and the refresh token.
      unfoldable pub generate_tokens :
          Bytes → Surroundings → AuthorizationCode → Bytes → Result (Bytes × Bytes × Bytes)
      generate_tokens issuer w ac ks = do
        enc_uid ← aes_encrypt_string ks ac.uid (w.nonce 0)
        enc_username ← aes_encrypt_string ks ac.username (w.nonce 1)
        enc_email ← aes_encrypt_string ks ac.email (w.nonce 2)
        enc_scope ← aes_encrypt_string ks ac.scope (w.nonce 3)
        id_token ← generate_id_token issuer w.now enc_uid enc_username enc_email ac.acid
        access_token ← generate_access_token issuer w.now enc_uid enc_scope ac.acid
        refresh_token ← generate_refresh_token issuer w.now ac.uid ac.scope ac.acid
        ok (id_token, access_token, refresh_token)

      -- The issue of tokens to an admitted request: the pseudonym, the tokens, and the record of
      -- them.
      unfoldable pub issue :
          IdpServer
          → Surroundings
          → AuthorizationCode
          → ProofPok
          → Bytes
          → Result (AakeTokenResponse × AuthorizedUserData)
      issue s w ac proof ks = do
        sigma1 ← deref proof.sign1.sigma1
        let auid = point_to_string b.g1 (some (generate_auid sigma1 (hash_string_to_scalar ac.uid)))
        (id_token, access_token, refresh_token) ←
            rename_err "failed to generate tokens" (generate_tokens s.issuer w ac ks)
        ok (
          record {
            auid = auid;
            id_token = id_token;
            access_token = access_token;
            token_type = text "Bearer";
            refresh_token = refresh_token;
          },
          record {
            acid = ac.acid;
            uid = ac.uid;
            auid = auid;
            oprf_enc = ac.oprf_enc;
            username = ac.username;
            email = ac.email;
            scope = ac.scope;
            id_token = id_token;
            access_token = access_token;
            refresh_token = refresh_token;
          },
        )

      abbrev pub with_codes : IdpServer → Dict AuthorizationCode → IdpServer
      with_codes s codes = record {
        codes = codes;
        emp_keys = s.emp_keys;
        authorized = s.authorized;
        identity = s.identity;
        vk1 = s.vk1;
        vk2 = s.vk2;
        session_ks = s.session_ks;
        issuer = s.issuer;
      }

      -- `saveSessionKS`, whose failure is only logged.
      abbrev pub save_session_ks : Bool → Bytes → IdpServer → IdpServer
      save_session_ks writable ks s = record {
        codes = s.codes;
        emp_keys = s.emp_keys;
        authorized = s.authorized;
        identity = s.identity;
        vk1 = s.vk1;
        vk2 = s.vk2;
        session_ks = if writable then ks else s.session_ks;
        issuer = s.issuer;
      }

      abbrev pub recorded : Bytes → AuthorizedUserData → IdpServer → IdpServer
      recorded code entry s = record {
        codes = delete_code s.codes code;
        emp_keys = s.emp_keys;
        authorized = add s.authorized (some entry);
        identity = s.identity;
        vk1 = s.vk1;
        vk2 = s.vk2;
        session_ks = s.session_ks;
        issuer = s.issuer;
      }

      -- The end of `handleToken`, behind the issue.
      abbrev pub conclude :
          Bytes
          → IdpServer
          → Result (AakeTokenResponse × AuthorizedUserData)
          → IdpServer × Result AakeTokenResponse
      conclude code s (ok (resp, entry)) = (recorded code entry s, ok resp)
      conclude code s (err e) = (s, err e)
      conclude code s panic = (s, panic)

      -- The middle of `handleToken`, behind the checks.
      abbrev pub proceed :
          IdpServer
          → Surroundings
          → Bytes
          → AuthorizationCode
          → Result (ProofPok × Bytes)
          → IdpServer × Result AakeTokenResponse
      proceed s w code ac (ok (proof, ks)) =
          let s' = save_session_ks w.writable ks s in conclude code s' (issue s' w ac proof ks)
      proceed s w code ac (err e) = (s, err e)
      proceed s w code ac panic = (s, panic)

      abbrev pub start :
          IdpServer
          → Surroundings
          → AakeTokenRequest
          → Dict AuthorizationCode × Result AuthorizationCode
          → IdpServer × Result AakeTokenResponse
      start s w req (codes, ok ac) =
          let s' = with_codes s codes in proceed s' w req.code ac (admit s' ac req)
      start s w req (codes, err e) = (with_codes s codes, err "invalid code")
      start s w req (codes, panic) = (with_codes s codes, panic)

      -- `handleToken`, on a request that was read.
      unfoldable pub handle_token :
          IdpServer → Surroundings → AakeTokenRequest → IdpServer × Result AakeTokenResponse
      handle_token s w req = start s w req (get_code s.codes w.now req.code)
