-- ===== src/Pok/KeyPair.antt =====
-- The key pair that `geneatePoK` gives for the key exchange.
use orionlink.Prelude.{
  Bytes, or_err-eq-ok, rename_err-eq-ok, some, or_err, deref, rename_err, ◌≡◌, refl, ok, Always,
  >>=-Always, ok-Always,
}
use orionlink.Ecc.{Bls, Scalar, G1}
use orionlink.Crypto.{Crypto}
use orionlink.Wire.{bytes_to_scalar}
use orionlink.Cred.PsSig.{to_json, from_json, randomize_sig}
use orionlink.Cred.{draw, Rng, PsSignMsg, PsPublicKey}
use orionlink.Protocol.{AakeGenPokRequest, AakeGenPokResponse}
use orionlink.Pok.{Prover, at, pok_challenge, answer, geneate_pok}

module _ ⦃b : Bls⦄ ⦃h : Crypto⦄ where
  -- The point is the multiple of the generator by the scalar, and the first signature is the given
  -- one.
  abbrev pub Shaped : PsSignMsg → AakeGenPokResponse × Scalar × G1 → Type 0
  Shaped rsigma1 r = (r.2 ≡ b.g1.smul r.1 b.g1.gen) × (r.0.sign1 ≡ some (to_json (some rsigma1)))

  answer-Shaped :
      (rsigma1 rsigma2 : PsSignMsg) (vk1 vk2 : PsPublicKey) (d sk t t2 : Scalar) (rng : Rng)
      → Always (Shaped rsigma1) (answer rsigma1 rsigma2 vk1 vk2 d sk t t2 rng)
  unfolding answer
  answer-Shaped rsigma1 rsigma2 vk1 vk2 d sk t t2 rng = >>=-Always (draw (rng 2)) _ λ r_qpk e_r_qpk.
      >>=-Always (draw (rng 3)) _ λ r_d e_r_d. >>=-Always (draw (rng 4)) _ λ r_qsk e_r_qsk.
        >>=-Always (at vk1.yhatn 0) _ λ y e_y. >>=-Always (draw (rng 5)) _ λ n1 e_n1.
          >>=-Always (at vk2.yhatn 0) _ λ y' e_y1. >>=-Always (at vk2.yhatn 1) _ λ y'' e_y2.
            >>=-Always (draw (rng 6)) _ λ n2 e_n2. >>=-Always (draw (rng 7)) _ λ n3 e_n3.
              >>=-Always (pok_challenge vk1 vk2 _ _ _ _ _ _) _ λ c e_c. ok-Always (refl, refl)

  -- The proof comes with a key pair, whose public key is the multiple of the generator by its
  -- secret; and it sends the request's signature on as its first one.
  abbrev pub Answers : AakeGenPokRequest → AakeGenPokResponse × Scalar × G1 → Type 0
  Answers req r =
      (sig : Bytes) × (rsigma1 : PsSignMsg) × (req.r_sig1 ≡ some sig)
      × (from_json sig ≡ ok rsigma1)
      × Shaped rsigma1 r

  always :
      (s : Prover) (req : AakeGenPokRequest) (rng : Rng)
      → Always (Answers req) (geneate_pok s req rng)
  unfolding geneate_pok
  always s req rng =
      >>=-Always (or_err req.r_sig1 "invalid request body: rSig1, k, t are required") _ λ sig e_sig.
        >>=-Always (or_err req.t "invalid request body: rSig1, k, t are required") _ λ tb e_tb.
          >>=-Always (rename_err "invalid rSig1" (from_json sig)) _ λ rsigma1 e_rsigma1.
            >>=-Always (bytes_to_scalar (some tb)) _ λ t e_t.
              >>=-Always (randomize_sig s.sigma_bar rng) _ λ r e_r.
                >>=-Always (deref s.identity_sk) _ λ sk e_sk.
                  >>=-Always (deref s.vk1) _ λ vk1 e_vk1. >>=-Always (deref s.vk2) _ λ vk2 e_vk2.
                    record {
                      at_ok = λ made e. (
                        sig,
                        rsigma1,
                        or_err-eq-ok _ _ e_sig,
                        rename_err-eq-ok _ _ e_rsigma1,
                        (answer-Shaped rsigma1 r.0 vk1 vk2 _ sk t r.2 rng).at_ok made e,
                      );
                    }

  pub geneate_pok-Answers :
      (s : Prover) (req : AakeGenPokRequest) (rng : Rng) (made : AakeGenPokResponse × Scalar × G1)
      → geneate_pok s req rng ≡ ok made
      → Answers req made
  geneate_pok-Answers s req rng made e = (always s req rng).at_ok made e
