-- ===== src/Cred/Present.antt =====
-- lib/anonyCred.go: showing a credential. The holder sends a randomized signature with a proof
-- that the signed attributes are known.
pub mod Complete
use orionlink.Prelude.{
  Bool, true, false, not, ◌||◌, Option, none, some, List, [], ◌∷◌, ◌++◌, map, length, ◌==◌, Bytes,
  Slice, content, Result, ok, err, panic, ◌>>=◌, ◌>>◌, deref, or_err, fail_if,
}
use orionlink.Ecc.{Bls, Scalar, G1, G2}
use orionlink.Crypto.{Crypto}
use orionlink.Cred.{Rng, draw, PsSignMsg, PsPublicKey}
use orionlink.Cred.Sums.{add_terms, responses}
use orionlink.Cred.PsSig.{check_pairing}
use orionlink.Cred.Nizk.{compress_all}

module _ ⦃b : Bls⦄ where
  pub record AnoyCredPresentation : Type 0 where
    pub sigma : PsSignMsg
    pub c : Option G2
    pub r : Option G2
    pub z0 : Option Scalar
    pub zs : List (Option Scalar)
    pub context : Slice

  module _ ⦃h : Crypto⦄ where
    unfoldable pub compute_anoy_cred_challenge : List (Option G2) → G2 → G2 → Slice → Result Scalar
    compute_anoy_cred_challenge yhatn c r context = do
      bases ← compress_all b.g2 yhatn
      ok (
          b.field.set_bytes
            (h.sha256 (bases ++ (b.g2.compress c ++ (b.g2.compress r ++ content context)))))

    unfoldable pub anoy_cred_present :
        PsSignMsg
        → Scalar
        → List Scalar
        → List Scalar
        → PsPublicKey
        → Slice
        → Rng
        → Result AnoyCredPresentation
    anoy_cred_present sigma t hidden r vk context rng = do
      fail_if (not (length hidden == length r) || not (length hidden == length vk.yhatn))
          "hiddenAttrs, r, and Yhatn must have the same length"
      c2 ← add_terms b.g2 (map some hidden) vk.yhatn (b.g2.smul t b.g2.gen)
      r0 ← draw (rng 0)
      r2 ← add_terms b.g2 (map some r) vk.yhatn (b.g2.smul r0 b.g2.gen)
      c ← compute_anoy_cred_challenge vk.yhatn c2 r2 context
      ok (record {
        sigma = sigma;
        c = some c2;
        r = some r2;
        z0 = some (b.field.add (b.field.mul c t) r0);
        zs = map some (responses b.field c hidden r);
        context = context;
      })

    check_signature : PsSignMsg → G2 → Option G2 → Result Bool
    check_signature sigma c xhat = do
      x ← deref xhat
      s2 ← deref sigma.sigma2
      s1 ← deref sigma.sigma1
      fail_if (not (check_pairing s1 s2 (b.g2.add x c))) "signature verification failed"
      ok true

    unfoldable pub verify_anoy_cred_present :
        Option AnoyCredPresentation → Option PsPublicKey → Result Bool
    unfolding check_signature
    verify_anoy_cred_present presentation key = do
      ap ← or_err presentation "invalid inputs for presentation verification"
      vk ← or_err key "invalid inputs for presentation verification"
      c ← or_err ap.c "invalid inputs for presentation verification"
      r ← or_err ap.r "invalid inputs for presentation verification"
      z0 ← or_err ap.z0 "invalid inputs for presentation verification"
      fail_if (not (length ap.zs == length vk.yhatn))
          "proof zs length mismatch with public key bases"
      e ← compute_anoy_cred_challenge vk.yhatn c r ap.context
      left ← add_terms b.g2 ap.zs vk.yhatn (b.g2.smul z0 b.g2.gen)
      fail_if (not (b.g2.is_equal left (b.g2.add (b.g2.smul e c) r)))
          "commitment proof verification failed"
      check_signature ap.sigma c vk.xhat
