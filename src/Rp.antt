-- ===== src/Rp.antt =====
-- The RP's server of RP/handler.go, and its answer to the Broker in a login, in RP/aaka.go. An
-- exchange over HTTP is a parameter: what the other side answers, or that it fails.
pub mod Store
pub mod Callback
pub mod Refresh
pub mod Claims
pub mod Agreement
pub mod Csrf
pub mod KeyFile
use orionlink.Prelude.{
  Bool, true, false, Option, none, some, Bytes, Slice, is_empty, Result, ok, err, panic, ◌>>=◌,
  ◌>>◌, rename_err, fail_if, if◌then◌else◌,
}
use orionlink.Ecc.{Bls, Scalar, G1}
use orionlink.Crypto.{Crypto}
use orionlink.Wire.{bytes_to_point, point_to_bytes}
use orionlink.Cred.{Rng, PsPublicKey, DomainCredential, SecretCredential}
use orionlink.Session.{new_session}
use orionlink.Protocol.{AakeGenPokRequest, AakeGenPokResponse, E2ee, IdpEmpKeyResponse}
use orionlink.Pok.{Prover, geneate_pok}
use orionlink.Ratchet.Rp.{RpRefresh}
use orionlink.Rp.Store.{RpStorage, save_aake_state}

module _ ⦃b : Bls⦄ where
  -- `RPServer`; `session_ks` is the file of the persisted K_S.
  pub record RpServer : Type 0 where
    pub tid : Bytes
    pub domain : Bytes
    pub identity_sk : Option Scalar
    pub vk1 : Option PsPublicKey
    pub vk2 : Option PsPublicKey
    pub idp_aake_pk : Option G1
    pub domain_cred : DomainCredential
    pub secret_cred : SecretCredential
    pub store : RpStorage
    pub refresh : RpRefresh
    pub session_ks : Bytes

  -- What `geneatePoK` reads of the server.
  abbrev pub prover : RpServer → Prover
  prover s = record {
    domain = s.domain;
    identity_sk = s.identity_sk;
    vk1 = s.vk1;
    vk2 = s.vk2;
    sigma_bar = s.secret_cred.sigma_bar;
  }

  module _ ⦃h : Crypto⦄ where
    -- `attachE2EE`: K_S, and the response with its half for the key exchange. `drawn` is the draw
    -- for the ephemeral key, `nonce` the one for the encryption.
    unfoldable pub attach_e2ee :
        RpServer
        → Result IdpEmpKeyResponse
        → AakeGenPokResponse
        → Scalar
        → G1
        → Option Scalar
        → Option Bytes
        → Result (Bytes × AakeGenPokResponse)
    attach_e2ee s fetched resp client_sk client_pk drawn nonce = do
      emp ← rename_err "failed to get server emp key" fetched
      emp_pk ← rename_err "failed to get server emp key" (bytes_to_point b.g1 emp.pk)
      (ks, client_emp_pk, msg) ←
          rename_err "failed to derive session key"
            (new_session (some client_sk) (some client_pk) s.idp_aake_pk emp_pk drawn nonce)
      ok (
        ks,
        record resp {
          e2ee = record {
            client_pk = point_to_bytes b.g1 (some client_pk);
            client_emp_pk = point_to_bytes b.g1 (some client_emp_pk);
            idp_emp_key_id = emp.kid;
            msg = some msg;
          };
        },
      )

    -- `saveSessionKS`, as far as K_S goes: an empty key is not written, and a failure is logged.
    abbrev pub save_session_ks : Bool → Bytes → Bytes → Bytes
    save_session_ks writable ks old = if is_empty ks then old else if writable then ks else old

    -- What the proof's handler leaves, and its answer.
    abbrev pub remember :
        RpServer
        → Bool
        → Bytes
        → Result (Bytes × AakeGenPokResponse)
        → RpServer × Result AakeGenPokResponse
    remember s writable state (err e) = (s, err e)
    remember s writable state panic = (s, panic)
    remember s writable state (ok (ks, resp)) = (
      record s {
        session_ks = save_session_ks writable ks s.session_ks;
        store = save_aake_state s.store state (some (record { ks = ks }));
      },
      ok resp,
    )

    -- The checks and the exchange of `handleAAKEGenPoK`.
    unfoldable pub aake_gen_pok :
        RpServer
        → Result IdpEmpKeyResponse
        → AakeGenPokRequest
        → Rng
        → Option Scalar
        → Option Bytes
        → Result (Bytes × AakeGenPokResponse)
    aake_gen_pok s fetched req rng drawn nonce = do
      (resp, sk, pk) ← rename_err "failed to generate AAKE PoK" (geneate_pok (prover s) req rng)
      attach_e2ee s fetched resp sk pk drawn nonce

    -- `handleAAKEGenPoK`, on a request that was read; `writable` tells whether the file of K_S can
    -- be written.
    unfoldable pub handle_aake_gen_pok :
        RpServer
        → Result IdpEmpKeyResponse
        → Bool
        → AakeGenPokRequest
        → Rng
        → Option Scalar
        → Option Bytes
        → RpServer × Result AakeGenPokResponse
    handle_aake_gen_pok s fetched writable req rng drawn nonce =
        remember s writable req.state (aake_gen_pok s fetched req rng drawn nonce)
