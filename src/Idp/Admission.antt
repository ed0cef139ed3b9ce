-- ===== src/Idp/Admission.antt =====
-- What the IdP has checked of a request that it admits.
use orionlink.Prelude.{
  ◌≡◌, sym, ap₂, ◌∙◌, true, false, not, ◌||◌, some, Bytes, bytes_eq, bytes_eq_iff, ok, >>=-eq-ok,
  rename_err-eq-ok, or_err-eq-ok, fail_if, fail_if-eq-ok, rename_err, or_err, arith,
}
use mathlib.Core.Path.{subst}
use orionlink.Ecc.{Bls}
use orionlink.Crypto.{Crypto}
use orionlink.Wire.{Codec, point_to_string}
use orionlink.Session.{E2eeData, get_session_key}
use orionlink.Protocol.{AakeTokenRequest}
use orionlink.Pok.{ProofPok, to_proof, verify_pok}
use orionlink.Idp.Store.{AuthorizationCode}
use orionlink.Idp.{IdpServer, to_e2ee_data, admit}

module _ ⦃b : Bls⦄ ⦃h : Crypto⦄ ⦃codec : Codec⦄ where
  open b use {g1}

  -- The proof of the request is accepted, its credential is the one of the code's consent, and the
  -- key exchange gives `ks`.
  abbrev pub Admitted : IdpServer → AuthorizationCode → AakeTokenRequest → ProofPok → Bytes → Type 0
  Admitted s ac req proof ks =
      (to_proof req.pok ≡ ok proof)
      × ((verify_pok s.vk1 s.vk2 proof ≡ ok tt)
          × ((codec.parse_acid ac.acid
                ≡ some
                    (point_to_string g1 proof.sign1.sigma1, point_to_string g1 proof.sign1.sigma2))
              × ((edata : E2eeData) × ((to_e2ee_data req.pok.e2ee ≡ ok edata)
                    × (get_session_key s.emp_keys s.identity edata ≡ ok ks)))))

  same_texts :
      (a x b y : Bytes) → (not (bytes_eq a x) || not (bytes_eq b y)) ≡ false → (a ≡ x) × (b ≡ y)
  same_texts a x b y f = (eq a x (ground arith), eq b y (ground arith))
    where
      eq : (x y : Bytes) → bytes_eq x y ≡ true → x ≡ y
      eq x y = (bytes_eq_iff x y).0

  pub admit-Admitted :
      (s : IdpServer) (ac : AuthorizationCode) (req : AakeTokenRequest) (proof : ProofPok)
      (ks : Bytes)
      → admit s ac req ≡ ok (proof, ks)
      → Admitted s ac req proof ks
  unfolding admit
  admit-Admitted s ac req proof ks e =
      let (p, e1, k1) = >>=-eq-ok (rename_err "invalid proof" (to_proof req.pok)) _ e in
      let (u, e2, k2) = >>=-eq-ok (rename_err "invalid proof" (verify_pok s.vk1 s.vk2 p)) _ k1 in
      let (c, e3, k3) =
        >>=-eq-ok (or_err (codec.parse_acid ac.acid) "malformed consent acid") _ k2 in
      let (v, e4, k4) =
        >>=-eq-ok
          (fail_if
            (not (bytes_eq (point_to_string g1 p.sign1.sigma1) c.0)
              || not (bytes_eq (point_to_string g1 p.sign1.sigma2) c.1))
            "acid mismatch: consent credential != issuance credential")
          _ k3 in
      let (d, e5, k5) =
        >>=-eq-ok (rename_err "invalid e2ee data" (to_e2ee_data req.pok.e2ee)) _ k4 in
      let (k, e6, k6) =
        >>=-eq-ok (rename_err "invalid session key" (get_session_key s.emp_keys s.identity d)) _
          k5 in
      let (t1, t2) =
        same_texts (point_to_string g1 p.sign1.sigma1) c.0 (point_to_string g1 p.sign1.sigma2) c.1
          (fail_if-eq-ok _ _ e4) in
      let same : ◌≡◌ {A = ProofPok × Bytes} (p, k) (proof, ks) = cc k6 in
      subst (λ x. Admitted s ac req x.0 x.1) same
        (
          rename_err-eq-ok _ _ e1,
          (
            rename_err-eq-ok _ _ e2,
            (
              or_err-eq-ok _ _ e3 ∙ ap₂ (λ x y. some (x, y)) (sym t1) (sym t2),
              (d, (rename_err-eq-ok _ _ e5, rename_err-eq-ok _ _ e6)),
            ),
          ),
        )
