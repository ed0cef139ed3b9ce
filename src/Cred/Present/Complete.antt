-- ===== src/Cred/Present/Complete.antt =====
-- A randomized credential is shown with success.
use orionlink.Prelude.{
  ℕ, ◌≡◌, refl, sym, ap, ap₂, ◌∙◌, true, false, not, ◌||◌, some, List, ◌++◌, map, length, ◌==◌,
  Slice, content, arith, ok, ◌>>=◌,
}
use orionlink.Ecc.{Bls, Scalar, G1, G2}
use orionlink.Ecc.Laws
use orionlink.Crypto.{Crypto}
use orionlink.Cred.{supply}
use orionlink.Cred.Sums.{
  add_terms-lin, lin, lin-multiples, lin-responses, responses, length-responses,
}
use orionlink.Cred.PsSig.{points, key_of, ps_verify, randomize_sig, check_pairing}
use orionlink.Cred.PsSig.Correct.{
  length-map, exponent, check_pairing_iff, ps_verify_iff, randomized,
}
use orionlink.Cred.Nizk.Complete.{encoded, compress_all-some}
use orionlink.Cred.Present.{
  anoy_cred_present, verify_anoy_cred_present, compute_anoy_cred_challenge,
}

module _ ⦃b : Bls⦄ ⦃h : Crypto⦄ where
  open b use {field, g1, g2}

  abbrev challenge : List G2 → G2 → G2 → Slice → Scalar
  challenge ys c r context =
      field.set_bytes
        (h.sha256 (encoded g2 ys ++ (g2.compress c ++ (g2.compress r ++ content context))))

  challenge_lem :
      (ys : List G2) (c r : G2) (context : Slice)
      → compute_anoy_cred_challenge (map some ys) c r context ≡ ok (challenge ys c r context)
  unfolding compute_anoy_cred_challenge
  challenge_lem ys c r context = rw (compress_all-some g2 ys) refl

  -- A signature that verifies on as many attributes as its key has secrets, under a key made from
  -- secrets, is accepted when it is randomized and presented with any masks, one for each.
  pub verify_anoy_cred_present-anoy_cred_present :
      (x : Scalar) (ys attrs masks : List Scalar) (s1 s2 : G1) (context : Slice) (f g : ℕ → Scalar)
      → length attrs ≡ length ys
      → length masks ≡ length attrs
      → ps_verify
          (some (record { sigma1 = some s1; sigma2 = some s2 }))
          attrs
          (some (key_of x ys).public_key)
        ≡ ok true
      → (randomize_sig (some (record { sigma1 = some s1; sigma2 = some s2 })) (supply f) >>= λ r.
          anoy_cred_present r.0 r.2 attrs masks (key_of x ys).public_key context (supply g) >>= λ p.
          verify_anoy_cred_present (some p) (some (key_of x ys).public_key))
        ≡ ok true
  unfolding randomize_sig anoy_cred_present verify_anoy_cred_present
  verify_anoy_cred_present-anoy_cred_present x ys attrs masks s1 s2 context f g e em valid =
      rw
        (
          lengths,
          add_terms-lin g2 attrs bases (g2.smul (f 1) g2.gen) (omega (arith, fits)),
          add_terms-lin g2 masks bases (g2.smul (g 0) g2.gen) (omega (arith, fits, em)),
          challenge_lem bases c2 r2 context,
          answers_length,
          challenge_lem bases c2 r2 context,
          add_terms-lin g2 answers bases (g2.smul z0 g2.gen) (omega (arith, length-answers, fits)),
          equation,
          pairing,
        )
        refl
    where
      bases : List G2
      bases = map (λ y. g2.smul y g2.gen) ys

      fits : length attrs ≡ length bases
      fits = omega (arith, e, length-map (λ (y : Scalar). g2.smul y g2.gen) ys)

      lengths :
          (not (length attrs == length masks) || not (length attrs == length (points g2 ys)))
          ≡ false
      lengths = ground (arith, em, fits, length-map {A = G2} some bases)

      c2 : G2
      c2 = g2.add (g2.smul (f 1) g2.gen) (lin g2 attrs bases)

      r2 : G2
      r2 = g2.add (g2.smul (g 0) g2.gen) (lin g2 masks bases)

      c : Scalar
      c = challenge bases c2 r2 context

      z0 : Scalar
      z0 = field.add (field.mul c (f 1)) (g 0)

      answers : List Scalar
      answers = responses field c attrs masks

      length-answers : length answers ≡ length attrs
      length-answers = length-responses field c attrs masks em

      answers_length : (length (map {A = Scalar} some answers) == length (points g2 ys)) ≡ true
      answers_length = ground (
        arith,
        length-map {A = Scalar} some answers,
        length-answers,
        fits,
        length-map {A = G2} some bases,
      )

      equation :
          g2.is_equal (g2.add (g2.smul z0 g2.gen) (lin g2 answers bases)) (g2.add (g2.smul c c2) r2)
          ≡ true
      equation = (g2.is_equal_iff _ _).1 (
          ap₂ g2.add (Laws.response g2 c (f 1) (g 0) g2.gen)
            (lin-responses g2 c attrs masks bases em (omega (arith, fits)))
          ∙ Laws.add_interchange g2 _ _ _ _
          ∙ ap (g2.add r2) (sym (g2.smul-add c _ _))
          ∙ g2.add_comm _ _)

      key_plus_commitment :
          g2.add (g2.smul x g2.gen) c2 ≡ g2.smul (field.add (exponent x ys attrs) (f 1)) g2.gen
      key_plus_commitment =
          ap (λ p. g2.add (g2.smul x g2.gen) (g2.add (g2.smul (f 1) g2.gen) p))
            (lin-multiples g2 attrs ys g2.gen)
          ∙ ap (g2.add (g2.smul x g2.gen)) (g2.add_comm _ _)
          ∙ sym (g2.add_assoc _ _ _)
          ∙ ap (λ p. g2.add p (g2.smul (f 1) g2.gen)) (sym (g2.add-smul x _ g2.gen))
          ∙ sym (g2.add-smul _ _ g2.gen)

      pairing :
          check_pairing
            (g1.smul (f 0) s1)
            (g1.smul (f 0) (g1.add s2 (g1.smul (f 1) s1)))
            (g2.add (g2.smul x g2.gen) c2)
          ≡ true
      pairing =
          ap (check_pairing _ _) key_plus_commitment
          ∙ (check_pairing_iff _ _ _).1 (
              randomized (f 0) (f 1) _ s1 s2
                ((ps_verify_iff x ys attrs s1 s2 (omega (arith, e))).0 valid))
