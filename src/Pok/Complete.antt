-- ===== src/Pok/Complete.antt =====
-- The proof that the RP makes, the IdP accepts.
use orionlink.Prelude.{ℕ, ◌≡◌, refl, sym, ap, ap₂, ◌∙◌, some, [], ◌∷◌, Bytes, ok, ◌>>=◌}
use orionlink.Ecc.{Bls, Scalar, G1, G2}
use orionlink.Ecc.Laws
use orionlink.Crypto.{Crypto}
use orionlink.Wire.{scalar_to_bytes, bytes_to_scalar, bytes_to_point}
use orionlink.Cred.{supply, PsSignMsg}
use orionlink.Cred.PsSig.{key_of, randomize_sig, to_json}
use orionlink.Cred.PsSig.Correct.{exponent, randomized}
use orionlink.Cred.PsSig.Wire.{from_json-pair}
use orionlink.Cred.Sums.{inner}
use orionlink.Cred.Nizk.{compress_all}
use orionlink.Pok.{
  ProofPok, commit1, commit2, no_error, scalar_or_nil, check_sign, pok_challenge, geneate_pok,
  to_proof, verify_pok,
}
use orionlink.Pok.Checks.{respond1, respond2, respond3, pair_multiple}

module _ ⦃b : Bls⦄ ⦃h : Crypto⦄ where
  open b use {field, g1, g2}

  point1 : (p : G1) → no_error (bytes_to_point g1 (some (g1.compress p))) ≡ some p
  unfolding bytes_to_point
  point1 p = rw (g1.set_bytes-compress p) refl

  point2 : (p : G2) → no_error (bytes_to_point g2 (some (g2.compress p))) ≡ some p
  unfolding bytes_to_point
  point2 p = rw (g2.set_bytes-compress p) refl

  pub scalar : (a : Scalar) → scalar_or_nil (scalar_to_bytes (some a)) ≡ some a
  unfolding scalar_to_bytes bytes_to_scalar
  scalar a = rw (scalar_or_nil, field.unmarshal-marshal a) refl

  -- A commitment to the attributes, with the key's first point added, is a multiple of the
  -- generator.
  committed :
      (x m t : Scalar) (q : G2)
      → q ≡ g2.smul m g2.gen
      → g2.add (g2.add (g2.smul t g2.gen) q) (g2.smul x g2.gen)
        ≡ g2.smul (field.add (field.add x m) t) g2.gen
  committed x m t q hq =
      g2.add_comm _ _
      ∙ ap (g2.add _) (g2.add_comm _ q)
      ∙ sym (g2.add_assoc _ _ _)
      ∙ ap (λ p. g2.add (g2.add (g2.smul x g2.gen) p) (g2.smul t g2.gen)) hq
      ∙ ap (λ p. g2.add p (g2.smul t g2.gen)) (sym (g2.add-smul x m g2.gen))
      ∙ sym (g2.add-smul _ t g2.gen)

  one_attribute :
      (d y : Scalar) → g2.smul d (g2.smul y g2.gen) ≡ g2.smul (inner field (d ∷ []) (y ∷ [])) g2.gen
  unfolding inner
  one_attribute d y =
      sym (g2.mul-smul d y g2.gen) ∙ ap (λ a. g2.smul a g2.gen) (sym (Laws.add-zero field _))

  two_attributes :
      (t d q y y' : Scalar)
      → commit2 t d q (g2.smul y g2.gen) (g2.smul y' g2.gen)
        ≡ g2.add (g2.smul t g2.gen) (g2.smul (inner field (d ∷ q ∷ []) (y ∷ y' ∷ [])) g2.gen)
  unfolding inner
  two_attributes t d q y y' =
      g2.add_assoc _ _ _
      ∙ ap (g2.add _) (
          ap₂ g2.add (sym (g2.mul-smul d y g2.gen)) (one_attribute q y')
          ∙ sym (g2.add-smul _ _ g2.gen))

  -- The proof that is sent, as `toProof` reads it, under the challenge `c`.
  abbrev pub whole :
      Scalar
      → (t t2 d sk e r_d r_qsk n1 n2 n3 : Scalar) → (y y' y'' : G2) → PsSignMsg
      → PsSignMsg
      → ProofPok
  whole c t t2 d sk e r_d r_qsk n1 n2 n3 y y' y'' sign1 sign2 = record {
    sign1 = sign1;
    sign2 = sign2;
    c1 = some (commit1 t d y);
    c2 = some (commit2 t2 d sk y' y'');
    c3 = some (g1.smul (field.mul sk e) g1.gen);
    r1 = some (commit1 n1 r_d y);
    r2 = some (commit2 n2 r_d r_qsk y' y'');
    r3 = some (g1.smul (field.mul sk n3) g1.gen);
    zd = some (field.add (field.mul c d) r_d);
    zqsk = some (field.add (field.mul c sk) r_qsk);
    z1 = some (field.add (field.mul c t) n1);
    z2 = some (field.add (field.mul c t2) n2);
    z3 = some (field.mul (field.add (field.mul c e) n3) sk);
  }

  pub accepted :
      (x1 y1 x2 y2 y3 c t t2 d sk e r_d r_qsk n1 n2 n3 : Scalar) (s1 s2 b1 b2 : G1)
      → let vk1 = (key_of x1 (y1 ∷ [])).public_key in
        let vk2 = (key_of x2 (y2 ∷ y3 ∷ [])).public_key in
        let y = g2.smul y1 g2.gen in
        let y' = g2.smul y2 g2.gen in
        let y'' = g2.smul y3 g2.gen in
        pok_challenge vk1 vk2
            (commit1 t d y)
            (commit2 t2 d sk y' y'')
            (g1.smul (field.mul sk e) g1.gen)
            (commit1 n1 r_d y)
            (commit2 n2 r_d r_qsk y' y'')
            (g1.smul (field.mul sk n3) g1.gen)
          ≡ ok c
        → s2 ≡ g1.smul (field.add (exponent x1 (y1 ∷ []) (d ∷ [])) t) s1
        → b2 ≡ g1.smul (field.add (exponent x2 (y2 ∷ y3 ∷ []) (d ∷ sk ∷ [])) t2) b1
        → verify_pok vk1 vk2 (
            whole c t t2 d sk e r_d r_qsk n1 n2 n3 y y' y''
              (record { sigma1 = some s1; sigma2 = some s2 })
              (record { sigma1 = some b1; sigma2 = some b2 }))
          ≡ ok tt
  unfolding verify_pok check_sign
  accepted x1 y1 x2 y2 y3 c t t2 d sk e r_d r_qsk n1 n2 n3 s1 s2 b1 b2 hc hs hb =
      rw
        (
          hc,
          (g2.is_equal_iff _ _).1 (respond1 c t d n1 r_d (g2.smul y1 g2.gen)),
          (g2.is_equal_iff _ _).1
              (respond2 c t2 d sk n2 r_d r_qsk (g2.smul y2 g2.gen) (g2.smul y3 g2.gen)),
          (g1.is_equal_iff _ _).1 (respond3 c e n3 sk),
          pair_multiple s1 s2 _ _ hs (committed x1 _ t _ (one_attribute d y1)),
          pair_multiple b1 b2 _ _ hb (
              ap (λ q. g2.add q (g2.smul x2 g2.gen)) (two_attributes t2 d sk y2 y3)
              ∙ committed x2 (inner field (d ∷ sk ∷ []) (y2 ∷ y3 ∷ [])) t2 _ refl),
        )
        refl

  -- The proof that the RP makes is accepted by the IdP, when the randomized domain credential that
  -- came with the request is a signature on the RP's domain, with the factor `t` of the request,
  -- and the RP's secret credential is a signature on its domain and its secret, under keys that
  -- were made from secrets.
  pub verify_pok-geneate_pok :
      (x1 y1 x2 y2 y3 sk t : Scalar) (domain state : Bytes) (s1 s2 b1 b2 : G1) (f : ℕ → Scalar)
      → let d = field.set_bytes domain in
        let vk1 = (key_of x1 (y1 ∷ [])).public_key in
        let vk2 = (key_of x2 (y2 ∷ y3 ∷ [])).public_key in
        s2 ≡ g1.smul (field.add (exponent x1 (y1 ∷ []) (d ∷ [])) t) s1
        → b2 ≡ g1.smul (exponent x2 (y2 ∷ y3 ∷ []) (d ∷ sk ∷ [])) b1
        → (geneate_pok
              (record {
                domain = domain;
                identity_sk = some sk;
                vk1 = some vk1;
                vk2 = some vk2;
                sigma_bar = some (record { sigma1 = some b1; sigma2 = some b2 });
              })
              (record {
                r_sig1 = some (to_json (some (record { sigma1 = some s1; sigma2 = some s2 })));
                t = some (field.marshal t);
                state = state;
              })
              (supply f)
            >>= λ r. to_proof r.0 >>= λ p. verify_pok vk1 vk2 p)
          ≡ ok tt
  unfolding geneate_pok to_proof randomize_sig pok_challenge compress_all bytes_to_scalar to_json
  verify_pok-geneate_pok x1 y1 x2 y2 y3 sk t domain state s1 s2 b1 b2 f hs hb =
      simp (from_json-pair, field.unmarshal-marshal, point1, point2, scalar)
        (accepted x1 y1 x2 y2 y3 _ t (f 1) (field.set_bytes domain) sk (f 2) (f 3) (f 4) (f 5) (f 6)
          (f 7) s1 s2 _ _ refl hs (randomized (f 0) (f 1) _ b1 b2 hb))
