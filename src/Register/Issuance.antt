-- ===== src/Register/Issuance.antt =====
-- The registration of an RP at the IdP, from end to end.
use orionlink.Prelude.{
  ℕ, ◌+◌, ◌≡◌, refl, sym, ap, ap₂, ◌∙◌, true, false, Option, none, some, List, [], ◌∷◌, map, Bytes,
  content, is_empty, length, ok, deref, rename_err, >>=-eq-ok, arith,
}
use orionlink.Ecc.{Bls, Scalar, G1}
use orionlink.Crypto.{Crypto}
use orionlink.Wire.{scalar_to_bytes, bytes_to_scalar, point_to_bytes, bytes_to_point}
use orionlink.Wire.RoundTrip.{bytes_to_point-point_to_bytes}
use orionlink.Cred.{supply, PsSignMsg}
use orionlink.Cred.PsSig.{key_of, ps_verify, to_json, from_json}
use orionlink.Cred.PsSig.Correct.{exponent, ps_sign-eq, ps_verify_iff}
use orionlink.Cred.PsSig.Wire.{from_json-pair, from_json-to_json}
use orionlink.Cred.Nizk.{MultiExpProof}
use orionlink.Cred.Nizk.Complete.{honest, length-answers, answers, prove_multi_exp-eq}
use orionlink.Cred.Blind.{prepare_blind_sign, blind_sign, unblind}
use orionlink.Cred.Blind.Correct.{commitment, prepare-eq, blind_issuance}
use orionlink.Protocol.{RpRegisterToIdpRequest, RpRegisterToIdpResponse}
use orionlink.Pok.{no_error, scalar_or_nil}
use orionlink.Rp.{RpServer}
use orionlink.Register.{
  ServerCredKey, none_there, read_proof, get_register_resp_to_rp, handle_rp_register,
  get_register_request_to_idp, get_credential, check_credentials, register_to_idp,
}

module _ ⦃b : Bls⦄ where
  open b use {field, g1}

  deref-eq-ok : (o : Option G1) {p : G1} → deref o ≡ ok p → o ≡ some p
  deref-eq-ok none e = cc e
  deref-eq-ok (some q) e = cc e

  -- A signature that can be unblinded survives its encoding.
  unblind-whole :
      (s s' : PsSignMsg) (d : Scalar)
      → unblind (some s) (some d) ≡ ok s'
      → from_json (to_json (some s)) ≡ ok s
  unfolding unblind to_json
  unblind-whole s s' d e =
      let (a, e1, k1) = >>=-eq-ok (deref s.sigma1) _ e in
      let (c, e2, k2) = >>=-eq-ok (deref s.sigma2) _ k1 in
      let same : s ≡ record { sigma1 = some a; sigma2 = some c } =
        ap₂ (λ o1 o2. record { sigma1 = o1; sigma2 = o2 }) (deref-eq-ok s.sigma1 e1)
          (deref-eq-ok s.sigma2 e2) in
      ap (λ m. from_json (to_json (some m))) same ∙ from_json-pair a c ∙ ap ok (sym same)

  compress-full : (p : G1) → is_empty (g1.compress p) ≡ false
  compress-full p = go (g1.compress p) (g1.length-compress p)
    where
      go : (s : Bytes) → length s ≡ g1.size → is_empty s ≡ false
      go [] e = absurd (omega (arith, e, g1.size-long))
      go (c ∷ s) e = refl

  read_scalar : (z : Scalar) → scalar_or_nil (scalar_to_bytes (some z)) ≡ some z
  unfolding scalar_to_bytes bytes_to_scalar
  read_scalar z = rw (scalar_or_nil, field.unmarshal-marshal z) refl

  read_point : (p : G1) → no_error (bytes_to_point g1 (point_to_bytes g1 (some p))) ≡ some p
  read_point p = ap no_error (bytes_to_point-point_to_bytes g1 (some p))

  read_scalars :
      (zs : List Scalar) → map scalar_or_nil (map scalar_to_bytes (map some zs)) ≡ map some zs
  read_scalars [] = refl
  read_scalars (z ∷ zs) = ap₂ ◌∷◌ (read_scalar z) (read_scalars zs)

  some_there :
      (zs : List Scalar) → length zs ≡ 1 → none_there (map scalar_to_bytes (map some zs)) ≡ false
  some_there [] e = absurd (omega (arith, e))
  some_there (z ∷ zs) e = refl

  module _ ⦃h : Crypto⦄ where
    -- The proof that the RP makes of its secret, under the last base of the IdP's second key.
    abbrev proof_of : Scalar → Scalar → (ℕ → Scalar) → MultiExpProof
    proof_of sk y3 f =
        honest (f 0) (sk ∷ []) (commitment (sk ∷ []) (y3 ∷ []) (f 0)) g1.gen
          (g1.smul y3 g1.gen ∷ []) (λ j. f (j + 1))

    prepared :
        (sk y3 : Scalar) (f : ℕ → Scalar)
        → prepare_blind_sign (sk ∷ []) (some (some (g1.smul y3 g1.gen) ∷ [])) (supply f)
          ≡ ok (proof_of sk y3 f, f 0)
    prepared sk y3 f =
        prepare-eq (sk ∷ []) (y3 ∷ []) f refl
        ∙ rw
            (prove_multi_exp-eq (f 0) (sk ∷ []) (commitment (sk ∷ []) (y3 ∷ []) (f 0)) g1.gen
              (g1.smul y3 g1.gen ∷ []) (λ j. f (j + 1)) refl)
            refl

    abbrev request_of : Bytes → MultiExpProof → List (Option Scalar) → RpRegisterToIdpRequest
    request_of domain p zs = record {
      domain = domain;
      c1 = point_to_bytes g1 p.c1;
      r1 = point_to_bytes g1 p.r1;
      z0 = scalar_to_bytes p.z0;
      zs = map scalar_to_bytes zs;
    }

    abbrev answers_of : Scalar → Scalar → (ℕ → Scalar) → List Scalar
    answers_of sk y3 f =
        answers (sk ∷ []) (commitment (sk ∷ []) (y3 ∷ []) (f 0)) g1.gen (g1.smul y3 g1.gen ∷ [])
          (λ j. f (j + 1))

    read :
        (domain : Bytes) (sk y3 : Scalar) (f : ℕ → Scalar)
        → read_proof (request_of domain (proof_of sk y3 f) (map some (answers_of sk y3 f)))
          ≡ proof_of sk y3 f
    read domain sk y3 f =
        rw (read_point _, read_point _, read_scalar _, read_scalars (answers_of sk y3 f)) refl

    -- A request that lacks nothing is passed on.
    passed :
        (keys : ServerCredKey) (req : RpRegisterToIdpRequest) (u v : ℕ → Scalar)
        → is_empty req.domain ≡ false
        → is_empty (content req.c1) ≡ false
        → is_empty (content req.r1) ≡ false
        → is_empty (content req.z0) ≡ false
        → none_there req.zs ≡ false
        → handle_rp_register keys req (supply u) (supply v)
          ≡ rename_err "IdP: registration failed."
              (get_register_resp_to_rp keys req (supply u) (supply v))
    unfolding handle_rp_register
    passed keys req u v e1 e2 e3 e4 e5 = rw (e1, e2, e3, e4, e5) refl

    -- The request that the RP makes, and the handler's work on it.
    requested :
        (r : RpServer) (x2 y2 y3 sk : Scalar) (f : ℕ → Scalar)
        → r.identity_sk ≡ some sk
        → r.vk2 ≡ some (key_of x2 (y2 ∷ y3 ∷ [])).public_key
        → get_register_request_to_idp r (supply f)
          ≡ ok (request_of r.domain (proof_of sk y3 f) (map some (answers_of sk y3 f)), f 0)
    unfolding get_register_request_to_idp
    requested r x2 y2 y3 sk f secret v2 = rw (v2, secret, prepared sk y3 f) refl

    handled :
        (keys : ServerCredKey) (domain : Bytes) (sk y3 : Scalar) (f u v : ℕ → Scalar)
        → ((a : Scalar) → is_empty (field.marshal a) ≡ false)
        → is_empty domain ≡ false
        → let req = request_of domain (proof_of sk y3 f) (map some (answers_of sk y3 f)) in
          handle_rp_register keys req (supply u) (supply v)
          ≡ rename_err "IdP: registration failed."
              (get_register_resp_to_rp keys req (supply u) (supply v))
    unfolding point_to_bytes scalar_to_bytes
    handled keys domain sk y3 f u v scalars named =
        passed keys (request_of domain (proof_of sk y3 f) (map some (answers_of sk y3 f))) u v named
          (compress-full _) (compress-full _) (scalars _)
          (some_there (answers_of sk y3 f) (
            length-answers (sk ∷ []) (commitment (sk ∷ []) (y3 ∷ []) (f 0)) g1.gen
              (g1.smul y3 g1.gen ∷ []) (λ j. f (j + 1))))

    -- What the IdP issues for a proof that is read as it was made.
    responded :
        (keys : ServerCredKey) (req : RpRegisterToIdpRequest) (x1 y1 x2 y2 y3 sk : Scalar)
        (f u v : ℕ → Scalar) (s2 : PsSignMsg)
        → keys.ps_key1 ≡ some (key_of x1 (y1 ∷ []))
        → keys.ps_key2 ≡ some (key_of x2 (y2 ∷ y3 ∷ []))
        → read_proof req ≡ proof_of sk y3 f
        → let d = field.set_bytes req.domain in
          let key2 = key_of x2 (y2 ∷ y3 ∷ []) in
          let p = g1.smul (u 0) g1.gen in
          blind_sign
              (some key2.secret_key)
              (some key2.public_key)
              (some (proof_of sk y3 f))
              (d ∷ [])
              (supply v)
            ≡ ok s2
          → get_register_resp_to_rp keys req (supply u) (supply v)
            ≡ ok (record {
              sig1 = to_json (
                  some (record {
                    sigma1 = some p;
                    sigma2 = some (g1.smul (exponent x1 (y1 ∷ []) (d ∷ [])) p);
                  }));
              blind_sig2 = to_json (some s2);
            })
    unfolding get_register_resp_to_rp
    responded keys req x1 y1 x2 y2 y3 sk f u v s2 k1 k2 e signed =
        rw
          (
            k1,
            k2,
            ps_sign-eq x1 (y1 ∷ []) (field.set_bytes req.domain ∷ []) u (omega arith),
            e,
            signed,
          )
          refl

    -- What the RP makes of an answer that decodes, unblinds and verifies.
    obtained :
        (r : RpServer) (resp : RpRegisterToIdpResponse) (d sk : Scalar) (s1 s2 s3 : PsSignMsg)
        → from_json resp.sig1 ≡ ok s1
        → from_json resp.blind_sig2 ≡ ok s2
        → unblind (some s2) (some d) ≡ ok s3
        → r.identity_sk ≡ some sk
        → ps_verify (some s1) (field.set_bytes r.domain ∷ []) r.vk1 ≡ ok true
        → ps_verify (some s3) (field.set_bytes r.domain ∷ sk ∷ []) r.vk2 ≡ ok true
        → get_credential r resp d ≡ (
          record r {
            domain_cred = record r.domain_cred { sigma = some s1 };
            secret_cred = record r.secret_cred { sigma_bar = some s3; identity_sk = r.identity_sk };
          },
          ok tt,
        )
    unfolding get_credential check_credentials
    obtained r resp d sk s1 s2 s3 e1 e2 e3 secret v1 v2 = rw (e1, e2, e3, v1, secret, v2) refl

    -- Let an IdP have credential keys that were made from secrets, and an RP the IdP's public keys, a
    -- secret and an address that is not empty. Then the registration of the RP at the IdP succeeds,
    -- whatever scalars the two draw: the RP has, for its secret, a domain credential that verifies
    -- on its address and a secret credential that verifies on its address and its secret. No
    -- encoding of a scalar may be empty.
    pub register_to_idp-handle_rp_register :
        (r : RpServer) (x1 y1 x2 y2 y3 sk : Scalar) (f u v : ℕ → Scalar)
        → ((a : Scalar) → is_empty (field.marshal a) ≡ false)
        → is_empty r.domain ≡ false
        → r.identity_sk ≡ some sk
        → r.vk1 ≡ some (key_of x1 (y1 ∷ [])).public_key
        → r.vk2 ≡ some (key_of x2 (y2 ∷ y3 ∷ [])).public_key
        → let d = field.set_bytes r.domain in
          let keys : ServerCredKey = record {
            ps_key1 = some (key_of x1 (y1 ∷ []));
            ps_key2 = some (key_of x2 (y2 ∷ y3 ∷ []));
          } in
          let after =
            register_to_idp r
              (λ req. handle_rp_register keys req (supply u) (supply v))
              (supply f) in
          (after.1 ≡ ok tt)
          × (after.0.secret_cred.identity_sk ≡ some sk)
          × (ps_verify after.0.domain_cred.sigma (d ∷ []) r.vk1 ≡ ok true)
          × (ps_verify after.0.secret_cred.sigma_bar (d ∷ sk ∷ []) r.vk2 ≡ ok true)
    unfolding register_to_idp
    register_to_idp-handle_rp_register r x1 y1 x2 y2 y3 sk f u v scalars named secret v1 v2 =
        let d = field.set_bytes r.domain in
        let keys : ServerCredKey = record {
          ps_key1 = some (key_of x1 (y1 ∷ []));
          ps_key2 = some (key_of x2 (y2 ∷ y3 ∷ []));
        } in
        let p = g1.smul (u 0) g1.gen in
        let s1 : PsSignMsg = record {
          sigma1 = some p;
          sigma2 = some (g1.smul (exponent x1 (y1 ∷ []) (d ∷ [])) p);
        } in
        let req = request_of r.domain (proof_of sk y3 f) (map some (answers_of sk y3 f)) in
        let issued =
          rw (prepared sk y3 f) at
            (blind_issuance x2 (y2 ∷ []) (y3 ∷ []) (d ∷ []) (sk ∷ []) f v refl refl) in
        let key2 = key_of x2 (y2 ∷ y3 ∷ []) in
        let (s2, e2, k2) =
          >>=-eq-ok
            (blind_sign (some key2.secret_key) (some key2.public_key) (some (proof_of sk y3 f))
              (d ∷ []) (supply v))
            _ issued in
        let (s3, e3, verified) = >>=-eq-ok (unblind (some s2) (some (f 0))) _ k2 in
        let resp : RpRegisterToIdpResponse = record {
          sig1 = to_json (some s1);
          blind_sig2 = to_json (some s2);
        } in
        let answered : handle_rp_register keys req (supply u) (supply v) ≡ ok resp =
          handled keys r.domain sk y3 f u v scalars named
          ∙ ap (rename_err "IdP: registration failed.") (
              responded keys req x1 y1 x2 y2 y3 sk f u v s2 refl refl (read r.domain sk y3 f) e2) in
        let first : ps_verify (some s1) (d ∷ []) r.vk1 ≡ ok true =
          rw v1 ((ps_verify_iff x1 (y1 ∷ []) (d ∷ []) p _ (omega arith)).1 refl) in
        let second : ps_verify (some s3) (d ∷ sk ∷ []) r.vk2 ≡ ok true = rw v2 verified in
        let got =
          obtained r resp (f 0) sk s1 s2 s3
            (from_json-to_json (some p) (some (g1.smul (exponent x1 (y1 ∷ []) (d ∷ [])) p)))
            (unblind-whole s2 s3 (f 0) e3) e3 secret first second in
        rw (requested r x2 y2 y3 sk f secret v2, answered, got) (refl, secret, first, second)
