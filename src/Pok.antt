-- ===== src/Pok.antt =====
-- The proof of knowledge of a login: `geneatePoK` of RP/aaka.go makes it, `toProof` and
-- `verifyPoK` of IdP/aake.go read and check it.
pub mod Checks
pub mod Complete
pub mod Forged
pub mod KeyPair
use Prim.Native.String.{String}
use orionlink.Prelude.{
  ℕ, ◌≡◌, Bool, true, false, not, Option, none, some, List, [], ◌∷◌, ◌++◌, Bytes, Slice, content,
  get_elem?, Result, ok, err, panic, ◌>>=◌, ◌>>◌, deref, or_err, fail_if, rename_err,
}
use orionlink.Ecc.{Bls, Curve, Scalar, G1, G2}
use orionlink.Crypto.{Crypto}
use orionlink.Wire.{scalar_to_bytes, bytes_to_scalar, point_to_bytes, bytes_to_point}
use orionlink.Cred.{Rng, draw, PsSignMsg, PsPublicKey}
use orionlink.Cred.PsSig.{randomize_sig, to_json, from_json}
use orionlink.Cred.Nizk.{compress_all}
use orionlink.Protocol.{AakeGenPokRequest, AakeGenPokResponse, E2ee}

module _ ⦃b : Bls⦄ where
  -- `xs[i]`, used as a point.
  abbrev pub at {ℓ} : {A : Type ℓ} → List (Option A) → ℕ → Result A
  at xs i = deref (get_elem? xs i) >>= λ x. deref x

  -- What `geneatePoK` reads of the RP's server.
  pub record Prover : Type 0 where
    pub domain : Bytes
    pub identity_sk : Option Scalar
    pub vk1 : Option PsPublicKey
    pub vk2 : Option PsPublicKey
    pub sigma_bar : Option PsSignMsg

  -- `proofPoK`.
  pub record ProofPok : Type 0 where
    pub sign1 : PsSignMsg
    pub sign2 : PsSignMsg
    pub c1 : Option G2
    pub c2 : Option G2
    pub c3 : Option G1
    pub r1 : Option G2
    pub r2 : Option G2
    pub r3 : Option G1
    pub zd : Option Scalar
    pub zqsk : Option Scalar
    pub z1 : Option Scalar
    pub z2 : Option Scalar
    pub z3 : Option Scalar

  -- `x, _ := f()`
  abbrev pub no_error {ℓ} : {A : Type ℓ} → Result (Option A) → Option A
  no_error (ok x) = x
  no_error (err _) = none
  no_error panic = none

  abbrev pub scalar_or_nil : Slice → Option Scalar
  scalar_or_nil s = elim (bytes_to_scalar s) [ ok a ↦ some a | err _ ↦ none | panic ↦ none ]

  unfoldable pub to_proof : AakeGenPokResponse → Result ProofPok
  to_proof req = do
    sign1 ← rename_err "invalid sign1" (from_json (content req.sign1))
    sign2 ← rename_err "invalid sign2" (from_json (content req.sign2))
    ok (record {
      sign1 = sign1;
      sign2 = sign2;
      c1 = no_error (bytes_to_point b.g2 req.c.c1);
      c2 = no_error (bytes_to_point b.g2 req.c.c2);
      c3 = no_error (bytes_to_point b.g1 req.c.c3);
      r1 = no_error (bytes_to_point b.g2 req.r.r1);
      r2 = no_error (bytes_to_point b.g2 req.r.r2);
      r3 = no_error (bytes_to_point b.g1 req.r.r3);
      zd = scalar_or_nil req.z.zd;
      zqsk = scalar_or_nil req.z.zqsk;
      z1 = scalar_or_nil req.z.z1;
      z2 = scalar_or_nil req.z.z2;
      z3 = scalar_or_nil req.z.z3;
    })

  -- `t·g + d·y` and `t·g + d·y + q·y'` in the second group.
  abbrev pub commit1 : Scalar → Scalar → G2 → G2
  commit1 t d y = b.g2.add (b.g2.smul t b.g2.gen) (b.g2.smul d y)

  abbrev pub commit2 : Scalar → Scalar → Scalar → G2 → G2 → G2
  commit2 t d q y y' = b.g2.add (b.g2.add (b.g2.smul t b.g2.gen) (b.g2.smul d y)) (b.g2.smul q y')

  module _ ⦃h : Crypto⦄ where
    -- The Fiat-Shamir challenge, which both sides hash in the same order.
    unfoldable pub pok_challenge :
        PsPublicKey → PsPublicKey → G2 → G2 → G1 → G2 → G2 → G1 → Result Scalar
    pok_challenge vk1 vk2 c1 c2 c3 r1 r2 r3 = do
      y1 ← compress_all b.g2 vk1.yhatn
      y2 ← compress_all b.g2 vk2.yhatn
      ok (
          b.field.set_bytes (
            h.sha256 (
              y1
              ++ (y2
                  ++ (b.g2.compress c1
                      ++ (b.g2.compress c2
                          ++ (b.g1.compress c3
                              ++ (b.g2.compress r1 ++ (b.g2.compress r2 ++ b.g1.compress r3)))))))))

    -- The body of `geneatePoK` behind its draws: `t` comes with the request, `t2` is the factor of
    -- the second signature. The third response is multiplied by the secret at the end.
    unfoldable pub answer :
        PsSignMsg
        → PsSignMsg
        → PsPublicKey
        → PsPublicKey
        → Scalar
        → Scalar
        → Scalar
        → Scalar
        → Rng
        → Result (AakeGenPokResponse × Scalar × G1)
    answer rsigma1 rsigma2 vk1 vk2 d sk t t2 rng = do
      r_qpk ← draw (rng 2)
      let e_qsk = b.field.mul sk r_qpk
      let e_qpk = b.g1.smul e_qsk b.g1.gen
      r_d ← draw (rng 3)
      r_qsk ← draw (rng 4)
      y ← at vk1.yhatn 0
      let c1 = commit1 t d y
      n1 ← draw (rng 5)
      let r1 = commit1 n1 r_d y
      y' ← at vk2.yhatn 0
      y'' ← at vk2.yhatn 1
      let c2 = commit2 t2 d sk y' y''
      n2 ← draw (rng 6)
      let r2 = commit2 n2 r_d r_qsk y' y''
      n3 ← draw (rng 7)
      let r3 = b.g1.smul (b.field.mul sk n3) b.g1.gen
      c ← pok_challenge vk1 vk2 c1 c2 e_qpk r1 r2 r3
      let respond = λ (x r : Scalar). b.field.add (b.field.mul c x) r
      let send = λ (z : Scalar). scalar_to_bytes (some z)
      ok (
        record {
          sign1 = some (to_json (some rsigma1));
          sign2 = some (to_json (some rsigma2));
          c = record {
            c1 = some (b.g2.compress c1);
            c2 = some (b.g2.compress c2);
            c3 = some (b.g1.compress e_qpk);
          };
          r = record {
            r1 = some (b.g2.compress r1);
            r2 = some (b.g2.compress r2);
            r3 = some (b.g1.compress r3);
          };
          z = record {
            zd = send (respond d r_d);
            zqsk = send (respond sk r_qsk);
            z1 = send (respond t n1);
            z2 = send (respond t2 n2);
            z3 = send (b.field.mul (respond r_qpk n3) sk);
          };
          e2ee = record { client_pk = none; client_emp_pk = none; idp_emp_key_id = []; msg = none };
        },
        e_qsk,
        e_qpk,
      )

    -- `geneatePoK`, spelled so in the source: the message, and the key pair for the key exchange.
    unfoldable pub geneate_pok :
        Prover → AakeGenPokRequest → Rng → Result (AakeGenPokResponse × Scalar × G1)
    unfolding answer
    geneate_pok s req rng = do
      sig ← or_err req.r_sig1 "invalid request body: rSig1, k, t are required"
      tb ← or_err req.t "invalid request body: rSig1, k, t are required"
      rsigma1 ← rename_err "invalid rSig1" (from_json sig)
      t ← bytes_to_scalar (some tb)
      (rsigma2, _, t2) ← randomize_sig s.sigma_bar rng
      sk ← deref s.identity_sk
      vk1 ← deref s.vk1
      vk2 ← deref s.vk2
      answer rsigma1 rsigma2 vk1 vk2 (b.field.set_bytes s.domain) sk t t2 rng

    -- The two pairing checks at the end of `verifyPoK`.
    unfoldable pub check_sign : PsSignMsg → G2 → Option G2 → String → Result (Unit {0})
    check_sign sign c xhat e = do
      x ← deref xhat
      s1 ← deref sign.sigma1
      s2 ← deref sign.sigma2
      fail_if (not (b.gt_is_equal (b.pair s1 (b.g2.add c x)) (b.pair s2 b.g2.gen))) e

    unfoldable pub verify_pok : PsPublicKey → PsPublicKey → ProofPok → Result (Unit {0})
    unfolding check_sign
    verify_pok vk1 vk2 p = do
      c1 ← deref p.c1
      c2 ← deref p.c2
      c3 ← deref p.c3
      r1 ← deref p.r1
      r2 ← deref p.r2
      r3 ← deref p.r3
      c ← pok_challenge vk1 vk2 c1 c2 c3 r1 r2 r3
      z1 ← deref p.z1
      zd ← deref p.zd
      y ← at vk1.yhatn 0
      fail_if (not (b.g2.is_equal (commit1 z1 zd y) (b.g2.add r1 (b.g2.smul c c1))))
          "verification of proof component 1 failed"
      z2 ← deref p.z2
      y' ← at vk2.yhatn 0
      zqsk ← deref p.zqsk
      y'' ← at vk2.yhatn 1
      fail_if (not (b.g2.is_equal (commit2 z2 zd zqsk y' y'') (b.g2.add r2 (b.g2.smul c c2))))
          "verification of proof component 2 failed"
      z3 ← deref p.z3
      fail_if (not (b.g1.is_equal (b.g1.smul z3 b.g1.gen) (b.g1.add r3 (b.g1.smul c c3))))
          "verification of proof component 3 failed"
      check_sign p.sign1 c1 vk1.xhat "verification of PS signature 1 failed"
      check_sign p.sign2 c2 vk2.xhat "verification of PS signature 2 failed"
