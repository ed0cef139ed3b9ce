-- ===== src/Register.antt =====
-- The registration of an RP at the IdP: IdP/register.go with `handleRPRegister` and
-- `handleGetCredVk` of IdP/handler.go, and RP/register.go with `FromJson` of
-- internal/protocol/rpIdp.go. The exchanges over HTTP are parameters.
pub mod Keys
pub mod Issuance
pub mod AtBroker
pub mod Record
use orionlink.Prelude.{
  ℕ, suc, Bool, true, false, not, ◌||◌, Option, none, some, List, [], ◌∷◌, map, Bytes, Slice,
  content, is_empty, length, ◌==◌, get_elem?, Result, ok, err, panic, ◌>>=◌, ◌>>◌, deref, or_err,
  fail_if, rename_err, if◌then◌else◌,
}
use orionlink.Ecc.{Bls, Scalar, G1}
use orionlink.Crypto.{Crypto}
use orionlink.Wire.{scalar_to_bytes, bytes_to_scalar, point_to_bytes, bytes_to_point}
use orionlink.Cred.{Rng, PsSignMsg, PsKey, PsPublicKey}
use orionlink.Cred.PsSig.{ps_sign, ps_verify, to_json, from_json}
use orionlink.Cred.Nizk.{MultiExpProof}
use orionlink.Cred.Blind.{prepare_blind_sign, blind_sign, unblind, require}
use orionlink.Protocol.{RpRegisterToIdpRequest, RpRegisterToIdpResponse}
use orionlink.Pok.{at, no_error, scalar_or_nil}
use orionlink.Rp.{RpServer}

module _ ⦃b : Bls⦄ where
  -- `ServerCredKey`, the two keys of the IdP; a key's two halves are there with it.
  pub record ServerCredKey : Type 0 where
    pub ps_key1 : Option PsKey
    pub ps_key2 : Option PsKey

  abbrev pub none_there {ℓ} : {A : Type ℓ} → List A → Bool
  none_there [] = true
  none_there (_ ∷ _) = false

  module _ ⦃h : Crypto⦄ where
    -- The proof of a request, as `getRegisterRespToRP` reads it: what does not decode is nil.
    abbrev pub read_proof : RpRegisterToIdpRequest → MultiExpProof
    read_proof req = record {
      c1 = no_error (bytes_to_point b.g1 req.c1);
      r1 = no_error (bytes_to_point b.g1 req.r1);
      z0 = scalar_or_nil req.z0;
      zs = some (map scalar_or_nil req.zs);
    }

    -- `getRegisterRespToRP`, with the draws for the signature and for the blind signature.
    unfoldable pub get_register_resp_to_rp :
        ServerCredKey → RpRegisterToIdpRequest → Rng → Rng → Result RpRegisterToIdpResponse
    get_register_resp_to_rp keys req rng rng' = do
      key1 ← or_err keys.ps_key1 "credential keys not initialized"
      key2 ← or_err keys.ps_key2 "credential keys not initialized"
      let domain = b.field.set_bytes req.domain
      sig1 ← rename_err "PSSign failed" (ps_sign (domain ∷ []) key1.secret_key rng)
      sig2 ← rename_err "BlindSign failed" (
          blind_sign (some key2.secret_key) (some key2.public_key) (some (read_proof req))
            (domain ∷ []) rng')
      ok (record { sig1 = to_json (some sig1); blind_sig2 = to_json (some sig2) })

    -- `handleRPRegister`, on a request that was read.
    unfoldable pub handle_rp_register :
        ServerCredKey → RpRegisterToIdpRequest → Rng → Rng → Result RpRegisterToIdpResponse
    handle_rp_register keys req rng rng' = do
      fail_if (is_empty req.domain) "Domain is empty"
      fail_if
          (is_empty (content req.c1)
            || (is_empty (content req.r1) || (is_empty (content req.z0) || none_there req.zs)))
          "Missing required proof elements"
      rename_err "IdP: registration failed." (get_register_resp_to_rp keys req rng rng')

    -- `getRegisterRequestToIdP`: the request, and the factor that unblinds the answer.
    unfoldable pub get_register_request_to_idp :
        RpServer → Rng → Result (RpRegisterToIdpRequest × Scalar)
    get_register_request_to_idp s rng = do
      vk2 ← deref s.vk2
      vk_ik ← at vk2.yn 1
      sk ← deref s.identity_sk
      (proof, d) ←
          rename_err "prepare blind sign failed"
            (prepare_blind_sign (sk ∷ []) (some (some vk_ik ∷ [])) rng)
      zs ← deref proof.zs
      ok (
        record {
          domain = s.domain;
          c1 = point_to_bytes b.g1 proof.c1;
          r1 = point_to_bytes b.g1 proof.r1;
          z0 = scalar_to_bytes proof.z0;
          zs = map scalar_to_bytes zs;
        },
        d,
      )

    abbrev pub with_sigma : RpServer → Option PsSignMsg → RpServer
    with_sigma s sigma = record s { domain_cred = record s.domain_cred { sigma = sigma } }

    abbrev pub with_sigma_bar : RpServer → Option PsSignMsg → RpServer
    with_sigma_bar s sigma = record s { secret_cred = record s.secret_cred { sigma_bar = sigma } }

    -- A signature without points, `&lib.PSSignMsg{}`.
    abbrev pub blank : PsSignMsg
    blank = record { sigma1 = none; sigma2 = none }

    -- The two checks at the end of `getCredential`.
    unfoldable pub check_credentials : RpServer → Result (Unit {0})
    check_credentials s = do
      let domain = b.field.set_bytes s.domain
      require "PSVerify failed for Sign1" (ps_verify s.domain_cred.sigma (domain ∷ []) s.vk1)
      sk ← deref s.secret_cred.identity_sk
      require "PSVerify failed for Sign2"
          (ps_verify s.secret_cred.sigma_bar (domain ∷ sk ∷ []) s.vk2)

    -- `getCredential` behind the unblinding.
    abbrev pub unblinded : RpServer → Result PsSignMsg → RpServer × Result (Unit {0})
    unblinded s (ok sigma) =
        let s' = record s {
          secret_cred = record s.secret_cred {
            sigma_bar = some sigma;
            identity_sk = s.identity_sk;
          };
        } in
        (s', check_credentials s')
    unblinded s (err e) = (
      record s {
        secret_cred = record s.secret_cred { sigma_bar = none; identity_sk = s.identity_sk };
      },
      err e,
    )
    unblinded s panic = (s, panic)

    -- Behind the decoding of the blinded signature.
    abbrev pub decoded_bar : RpServer → Scalar → Result PsSignMsg → RpServer × Result (Unit {0})
    decoded_bar s d (ok sigma) =
        unblinded (with_sigma_bar s (some sigma)) (unblind (some sigma) (some d))
    decoded_bar s d (err e) = (with_sigma_bar s (some blank), err "failed to unmarshal sigma bar")
    decoded_bar s d panic = (with_sigma_bar s (some blank), panic)

    -- Behind the decoding of the signature of the domain.
    abbrev pub decoded : RpServer → Scalar → Bytes → Result PsSignMsg → RpServer × Result (Unit {0})
    decoded s d blind_sig2 (ok sigma) =
        decoded_bar (with_sigma s (some sigma)) d (from_json blind_sig2)
    decoded s d blind_sig2 (err e) = (with_sigma s (some blank), err "failed to unmarshal sigma")
    decoded s d blind_sig2 panic = (with_sigma s (some blank), panic)

    -- `getCredential`: the credentials are in the server also when a check fails.
    unfoldable pub get_credential :
        RpServer → RpRegisterToIdpResponse → Scalar → RpServer × Result (Unit {0})
    get_credential s resp d = decoded s d resp.blind_sig2 (from_json resp.sig1)

    abbrev pub obtain :
        RpServer → Result (RpRegisterToIdpResponse × Scalar) → RpServer × Result (Unit {0})
    obtain s (err e) = (s, err e)
    obtain s panic = (s, panic)
    obtain s (ok (resp, d)) = get_credential s resp d

    -- `registerToIdP`, where `post` is the exchange with the IdP.
    unfoldable pub register_to_idp :
        RpServer
        → (RpRegisterToIdpRequest → Result RpRegisterToIdpResponse)
        → Rng
        → RpServer × Result (Unit {0})
    register_to_idp s post rng = obtain s (
        rename_err "prepare cred1" (get_register_request_to_idp s rng) >>= λ (req, d).
        rename_err "IdP communication failed" (post req) >>= λ resp. ok (resp, d))
