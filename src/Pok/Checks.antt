-- ===== src/Pok/Checks.antt =====
-- The equations that `verifyPoK` checks, for keys made from secrets: the domain key has one
-- attribute, the secret credential's key has two.
use orionlink.Prelude.{◌≡◌, sym, ap, ap₂, ◌∙◌, true}
use orionlink.Ecc.{Bls, Scalar, G1, G2}
use orionlink.Ecc.Laws
use orionlink.Pok.{commit1, commit2}

module _ ⦃b : Bls⦄ where
  open b use {field, g1, g2}

  -- The three Σ-protocols of the proof.
  pub respond1 :
      (c t d n r : Scalar) (y : G2)
      → commit1 (field.add (field.mul c t) n) (field.add (field.mul c d) r) y
        ≡ g2.add (commit1 n r y) (g2.smul c (commit1 t d y))
  respond1 c t d n r y =
      ap₂ g2.add (Laws.response g2 c t n g2.gen) (Laws.response g2 c d r y)
      ∙ Laws.add_interchange g2 _ _ _ _
      ∙ ap (g2.add _) (sym (g2.smul-add c _ _))

  pub respond2 :
      (c t d q n r s : Scalar) (y y' : G2)
      → commit2
          (field.add (field.mul c t) n)
          (field.add (field.mul c d) r)
          (field.add (field.mul c q) s)
          y
          y'
        ≡ g2.add (commit2 n r s y y') (g2.smul c (commit2 t d q y y'))
  respond2 c t d q n r s y y' =
      ap₂ g2.add (respond1 c t d n r y) (Laws.response g2 c q s y')
      ∙ Laws.add_interchange g2 _ _ _ _
      ∙ ap (g2.add _) (sym (g2.smul-add c _ _))

  pub respond3 :
      (c e n sk : Scalar)
      → g1.smul (field.mul (field.add (field.mul c e) n) sk) g1.gen
        ≡ g1.add (g1.smul (field.mul sk n) g1.gen) (g1.smul c (g1.smul (field.mul sk e) g1.gen))
  respond3 c e n sk =
      g1.mul-smul _ sk g1.gen
      ∙ Laws.response g1 c e n (g1.smul sk g1.gen)
      ∙ ap₂ g1.add (Laws.smul_comm g1 n sk g1.gen ∙ sym (g1.mul-smul sk n g1.gen))
          (ap (g1.smul c) (Laws.smul_comm g1 e sk g1.gen ∙ sym (g1.mul-smul sk e g1.gen)))

  -- The pairing checks of a signature whose second point is a known multiple of the first.
  pub pair_multiple :
      (s1 s2 : G1) (e : Scalar) (q : G2)
      → s2 ≡ g1.smul e s1
      → q ≡ g2.smul e g2.gen
      → b.gt_is_equal (b.pair s1 q) (b.pair s2 g2.gen) ≡ true
  pair_multiple s1 s2 e q hs hq =
      (b.gt_is_equal_iff _ _).1
        (ap (b.pair s1) hq ∙ sym (b.pair-smul e s1 g2.gen) ∙ ap (λ p. b.pair p g2.gen) (sym hs))
