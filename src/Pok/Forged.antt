-- ===== src/Pok/Forged.antt =====
-- A proof that is made without any credential: its signatures are the identity of the group, which
-- neither `toProof` nor `verifyPoK` of IdP/aake.go refuses.
use orionlink.Prelude.{◌≡◌, sym, refl, some, [], ◌∷◌, ok, ◌>>=◌}
use orionlink.Ecc.{Bls, Scalar}
use orionlink.Ecc.Laws
use orionlink.Crypto.{Crypto}
use orionlink.Cred.{PsSignMsg}
use orionlink.Cred.PsSig.{key_of}
use orionlink.Cred.Nizk.{compress_all}
use orionlink.Pok.{commit1, commit2, pok_challenge, verify_pok}
use orionlink.Pok.Complete.{whole, accepted}

module _ ⦃b : Bls⦄ ⦃h : Crypto⦄ where
  open b use {field, g1, g2}

  abbrev pub identities : PsSignMsg
  identities = record { sigma1 = some g1.zero; sigma2 = some g1.zero }

  -- Under keys that were made from secrets, `verifyPoK` accepts for every domain scalar and every
  -- secret a proof whose commitments and responses are computed as the RP computes them and whose
  -- two signatures are pairs of the identity, for any factors, so no credential is needed.
  pub verify_pok-identity :
      (x1 y1 x2 y2 y3 t t2 d sk e r_d r_qsk n1 n2 n3 : Scalar)
      → let vk1 = (key_of x1 (y1 ∷ [])).public_key in
        let vk2 = (key_of x2 (y2 ∷ y3 ∷ [])).public_key in
        let y = g2.smul y1 g2.gen in
        let y' = g2.smul y2 g2.gen in
        let y'' = g2.smul y3 g2.gen in
        (pok_challenge vk1 vk2
            (commit1 t d y)
            (commit2 t2 d sk y' y'')
            (g1.smul (field.mul sk e) g1.gen)
            (commit1 n1 r_d y)
            (commit2 n2 r_d r_qsk y' y'')
            (g1.smul (field.mul sk n3) g1.gen)
          >>= λ c.
              verify_pok vk1 vk2
                (whole c t t2 d sk e r_d r_qsk n1 n2 n3 y y' y'' identities identities))
        ≡ ok tt
  unfolding pok_challenge compress_all
  verify_pok-identity x1 y1 x2 y2 y3 t t2 d sk e r_d r_qsk n1 n2 n3 =
      accepted x1 y1 x2 y2 y3 _ t t2 d sk e r_d r_qsk n1 n2 n3 _ _ _ _ refl
        (sym (Laws.smul-zero_point g1 _)) (sym (Laws.smul-zero_point g1 _))
