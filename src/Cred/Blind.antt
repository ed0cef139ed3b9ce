-- ===== src/Cred/Blind.antt =====
-- lib/anonyCred.go: blind issuance. The holder commits to hidden attributes, the issuer signs the
-- commitment with the public ones, and the holder removes the blinding factor.
pub mod Correct
use Prim.Native.String.{String}
use orionlink.Prelude.{
  ℕ, suc, ◌+◌, Bool, true, false, not, Option, none, some, List, [], ◌∷◌, map, length, drop, ltb,
  ◌==◌, Result, ok, err, panic, ◌>>=◌, ◌>>◌, deref, or_err, fail_if, rename_err, if◌then◌else◌,
}
use orionlink.Ecc.{Bls, Scalar, G1}
use orionlink.Crypto.{Crypto}
use orionlink.Cred.{Rng, draw, PsSignMsg, PsSecretKey, PsPublicKey}
use orionlink.Cred.Sums.{add_terms}
use orionlink.Cred.Nizk.{elements, MultiExpProof, prove_multi_exp, verify_multi_exp}

module _ ⦃b : Bls⦄ where
  -- The part of a source from number `i` on.
  abbrev pub later : ℕ → Rng → Rng
  later i rng j = rng (j + i)

  -- `vk.Yn[n:]` panics past the end.
  abbrev pub drop_checked {ℓ} : {A : Type ℓ} → ℕ → List A → Result (List A)
  drop_checked n xs = if ltb (length xs) n then panic else ok (drop n xs)

  -- `err != nil || !ok`
  abbrev pub require : String → Result Bool → Result (Unit {0})
  require e (ok true) = ok tt
  require e (ok false) = err e
  require e (err _) = err e
  require e panic = panic

  unfoldable pub unblind : Option PsSignMsg → Option Scalar → Result PsSignMsg
  unblind hat_sigma factor = do
    s ← or_err hat_sigma "invalid inputs to Unblind"
    d ← or_err factor "invalid inputs to Unblind"
    s1 ← deref s.sigma1
    s2 ← deref s.sigma2
    ok (record { sigma1 = some s1; sigma2 = some (b.g1.add s2 (b.g1.neg (b.g1.smul d s1))) })

  module _ ⦃h : Crypto⦄ where
    -- The proof of the hidden attributes, and the blinding factor. `len(nil)` is 0, so the test of
    -- the source for a nil `Yh` only refuses an empty list of attributes given no list of bases.
    unfoldable pub prepare_blind_sign :
        List Scalar → Option (List (Option G1)) → Rng → Result (MultiExpProof × Scalar)
    prepare_blind_sign hidden bases rng = do
      fail_if (not (length hidden == length (elements bases))) "hiddenAttrs and Yh length mismatch"
      yh ← or_err bases "missing issuer public key components (Yh)"
      d ← draw (rng 0)
      ci ← add_terms b.g1 (map some hidden) yh (b.g1.smul d b.g1.gen)
      proof ← prove_multi_exp (some d) hidden (some ci) (some b.g1.gen) yh (later 1 rng)
      ok (proof, d)

    sign_commitment : G1 → G1 → PsPublicKey → List Scalar → Scalar → Result PsSignMsg
    sign_commitment big_x c1 vk public_attrs r =
        add_terms b.g1 (map some public_attrs) vk.yn (b.g1.add big_x c1) >>= λ p.
        ok (record { sigma1 = some (b.g1.smul r b.g1.gen); sigma2 = some (b.g1.smul r p) })

    unfoldable pub blind_sign :
        Option PsSecretKey
        → Option PsPublicKey
        → Option MultiExpProof
        → List Scalar
        → Rng
        → Result PsSignMsg
    unfolding sign_commitment
    blind_sign secret public request public_attrs rng = do
      sk ← or_err secret "invalid inputs or incomplete issuer key"
      req ← or_err request "invalid inputs or incomplete issuer key"
      vk ← or_err public "invalid inputs or incomplete issuer key"
      big_x ← or_err sk.big_x "invalid inputs or incomplete issuer key"
      c1 ← or_err req.c1 "missing elements in blind request"
      _ ← or_err req.r1 "missing elements in blind request"
      _ ← or_err req.z0 "missing elements in blind request"
      zs ← or_err req.zs "missing elements in blind request"
      yh ← drop_checked (length public_attrs) vk.yn
      fail_if (not (length yh == length zs))
          "issuer public key (Yh) length mismatch with multi-proof (Zs)"
      require "multi-exponent proof verification failed"
          (verify_multi_exp (some b.g1.gen) yh (some req))
      r ← draw (rng 0)
      sign_commitment big_x c1 vk public_attrs r
