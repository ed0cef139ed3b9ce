-- ===== src/Cred/Blind/Correct.antt =====
-- Blind issuance from end to end.
use orionlink.Prelude.{
  ℕ, ◌+◌, ◌≤◌, ◌≡◌, refl, sym, ap, ap₂, ◌∙◌, true, false, some, List, [], ◌∷◌, ◌++◌, map, length,
  length-append, drop, ltb, ◌==◌, arith, ok, ◌>>=◌,
}
use orionlink.Ecc.{Bls, Field, Scalar, G1}
use orionlink.Ecc.Laws
use orionlink.Crypto.{Crypto}
use orionlink.Cred.{supply}
use orionlink.Cred.Sums.{add_terms, add_terms-lin, lin, lin-multiples, inner}
use orionlink.Cred.PsSig.{points, key_of, ps_verify}
use orionlink.Cred.PsSig.Correct.{length-map, ps_verify_iff}
use orionlink.Cred.Nizk.{prove_multi_exp, verify_multi_exp}
use orionlink.Cred.Nizk.Complete.{
  whole, honest, length-answers, prove_multi_exp-eq, verify_multi_exp-prove_multi_exp,
}
use orionlink.Cred.Blind.{prepare_blind_sign, blind_sign, unblind}

pub inner-append :
    (F : Field) (xs xs' ys ys' : List F.Scalar)
    → length xs ≡ length ys
    → inner F (xs ++ xs') (ys ++ ys') ≡ F.add (inner F xs ys) (inner F xs' ys')
unfolding inner
inner-append F [] xs' [] ys' e = sym (F.zero-add _)
inner-append F [] xs' (y ∷ ys) ys' e = absurd (omega arith)
inner-append F (x ∷ xs) xs' [] ys' e = absurd (omega arith)
inner-append F (x ∷ xs) xs' (y ∷ ys) ys' e =
    ap (F.add (F.mul x y)) (inner-append F xs xs' ys ys' (omega arith)) ∙ sym (F.add_assoc _ _ _)

module _ ⦃b : Bls⦄ ⦃h : Crypto⦄ where
  open b use {field, g1}

  -- `Unblind` takes `d` times the first point away again.
  pub unblind-eq :
      (s1 p : G1) (d : Scalar)
      → unblind
          (some (record { sigma1 = some s1; sigma2 = some (g1.add p (g1.smul d s1)) }))
          (some d)
        ≡ ok (record { sigma1 = some s1; sigma2 = some p })
  unfolding unblind
  unblind-eq s1 p d =
      ap (λ s. ok (record { sigma1 = some s1; sigma2 = some s })) (Laws.add-neg_cancel g1 _ p)

  drop-points : (ya yh : List Scalar) → drop (length ya) (points g1 (ya ++ yh)) ≡ points g1 yh
  drop-points [] yh = refl
  drop-points (y ∷ ya) yh = drop-points ya yh

  length-points : (ys : List Scalar) → length (points g1 ys) ≡ length ys
  length-points [] = refl
  length-points (y ∷ ys) = omega (arith, length-points ys)

  add_terms-multiples :
      (xs ys : List Scalar) (acc : G1)
      → length xs ≤ length ys
      → add_terms g1 (map some xs) (points g1 ys) acc
        ≡ ok (g1.add acc (g1.smul (inner field xs ys) g1.gen))
  add_terms-multiples xs ys acc e =
      add_terms-lin g1 xs (map (λ y. g1.smul y g1.gen) ys) acc
        (omega (arith, length-map (λ (y : Scalar). g1.smul y g1.gen) ys))
      ∙ ap (λ p. ok (g1.add acc p)) (lin-multiples g1 xs ys g1.gen)

  -- What the issuer returns for a request whose proof is accepted.
  pub blind_sign-eq :
      (x : Scalar) (ya yh public_attrs zs : List Scalar) (c1 r1 : G1) (z0 : Scalar) (r : ℕ → Scalar)
      → length public_attrs ≡ length ya
      → length zs ≡ length yh
      → let req = whole c1 r1 z0 zs in
        let key = key_of x (ya ++ yh) in
        verify_multi_exp (some g1.gen) (points g1 yh) (some req) ≡ ok true
        → blind_sign (some key.secret_key) (some key.public_key) (some req) public_attrs (supply r)
          ≡ ok (record {
            sigma1 = some (g1.smul (r 0) g1.gen);
            sigma2 = some (
                g1.smul (r 0) (
                  g1.add
                    (g1.add (g1.smul x g1.gen) c1)
                    (g1.smul (inner field public_attrs (ya ++ yh)) g1.gen)));
          })
  unfolding blind_sign
  blind_sign-eq x ya yh public_attrs zs c1 r1 z0 r ea ez accept =
      rw
        (
          long_enough,
          same_drop,
          same_length,
          accept,
          add_terms-multiples public_attrs (ya ++ yh) _ bound,
        )
        refl
    where
      bound : length public_attrs ≤ length (ya ++ yh)
      bound = omega (arith, ea, length-append ya yh)

      long_enough : ltb (length (points g1 (ya ++ yh))) (length public_attrs) ≡ false
      long_enough = ground (arith, length-points (ya ++ yh), bound)

      same_drop : drop (length public_attrs) (points g1 (ya ++ yh)) ≡ points g1 yh
      same_drop = ap (λ n. drop n (points g1 (ya ++ yh))) ea ∙ drop-points ya yh

      same_length : (length (points g1 yh) == length (map {A = Scalar} some zs)) ≡ true
      same_length = ground (arith, length-points yh, length-map {A = Scalar} some zs)

  inner-prefix :
      (xs ya yh : List Scalar)
      → length xs ≡ length ya
      → inner field xs (ya ++ yh) ≡ inner field xs ya
  unfolding inner
  inner-prefix [] ya yh e = refl
  inner-prefix (x ∷ xs) [] yh e = absurd (omega arith)
  inner-prefix (x ∷ xs) (y ∷ ya) yh e = ap (field.add _) (inner-prefix xs ya yh (omega arith))

  -- The second point of the blinded signature, by its blinding.
  blinded :
      (x d a e r : Scalar)
      → let g = g1.gen in
        g1.smul r (g1.add (g1.add (g1.smul x g) (g1.add (g1.smul d g) (g1.smul e g))) (g1.smul a g))
        ≡ g1.add (g1.smul (field.add x (field.add a e)) (g1.smul r g)) (g1.smul d (g1.smul r g))
  blinded x d a e r =
      ap (g1.smul r) (
        Laws.add_regroup g1 _ _ _ _
        ∙ ap (λ p. g1.add (g1.add (g1.smul x g1.gen) p) (g1.smul d g1.gen))
            (sym (g1.add-smul a e g1.gen))
        ∙ ap (λ p. g1.add p (g1.smul d g1.gen)) (sym (g1.add-smul x _ g1.gen)))
      ∙ g1.smul-add r _ _
      ∙ ap₂ g1.add (Laws.smul_comm g1 r _ g1.gen) (Laws.smul_comm g1 r d g1.gen)

  -- The request that the holder prepares.
  abbrev pub commitment : List Scalar → List Scalar → Scalar → G1
  commitment hidden yh d =
      g1.add (g1.smul d g1.gen) (lin g1 hidden (map (λ y. g1.smul y g1.gen) yh))

  pub prepare-eq :
      (hidden yh : List Scalar) (f : ℕ → Scalar)
      → length hidden ≡ length yh
      → prepare_blind_sign hidden (some (points g1 yh)) (supply f) ≡ (
          prove_multi_exp
            (some (f 0))
            hidden
            (some (commitment hidden yh (f 0)))
            (some g1.gen)
            (points g1 yh)
            (supply (λ j. f (j + 1)))
          >>= λ proof. ok (proof, f 0))
  unfolding prepare_blind_sign
  prepare-eq hidden yh f eh =
      rw
        (
          same_length,
          add_terms-lin g1 hidden (map (λ y. g1.smul y g1.gen) yh) (g1.smul (f 0) g1.gen) fits,
        )
        refl
    where
      same_length : (length hidden == length (points g1 yh)) ≡ true
      same_length = ground (arith, length-points yh)

      fits : length hidden ≤ length (map (λ (y : Scalar). g1.smul y g1.gen) yh)
      fits = omega (arith, eh, length-map (λ (y : Scalar). g1.smul y g1.gen) yh)

  -- What is left of the issuance once the request is a whole, accepted proof.
  issue :
      (x : Scalar) (ya yh public_attrs hidden zs : List Scalar) (r1 : G1) (z0 d : Scalar)
      (r : ℕ → Scalar)
      → length public_attrs ≡ length ya
      → length hidden ≡ length yh
      → length zs ≡ length yh
      → let req = whole (commitment hidden yh d) r1 z0 zs in
        let key = key_of x (ya ++ yh) in
        verify_multi_exp (some g1.gen) (points g1 yh) (some req) ≡ ok true
        → (blind_sign (some key.secret_key) (some key.public_key) (some req) public_attrs (supply r)
            >>= λ s. unblind (some s) (some d) >>= λ s'.
                ps_verify (some s') (public_attrs ++ hidden) (some key.public_key))
          ≡ ok true
  issue x ya yh public_attrs hidden zs r1 z0 d r ea eh ez accept =
      rw
        (
          blind_sign-eq x ya yh public_attrs zs (commitment hidden yh d) r1 z0 r ea ez accept,
          opened,
          blinded x d (inner field public_attrs (ya ++ yh)) (inner field hidden yh) (r 0),
          unblind-eq,
        )
        ((ps_verify_iff x (ya ++ yh) (public_attrs ++ hidden) _ _ fits).1
          (ap (λ a. g1.smul (field.add x a) (g1.smul (r 0) g1.gen)) exponents))
    where
      fits : length (public_attrs ++ hidden) ≤ length (ya ++ yh)
      fits = omega (arith, length-append public_attrs hidden, length-append ya yh, ea, eh)

      opened :
          commitment hidden yh d
          ≡ g1.add (g1.smul d g1.gen) (g1.smul (inner field hidden yh) g1.gen)
      opened = ap (g1.add (g1.smul d g1.gen)) (lin-multiples g1 hidden yh g1.gen)

      exponents :
          field.add (inner field public_attrs (ya ++ yh)) (inner field hidden yh)
          ≡ inner field (public_attrs ++ hidden) (ya ++ yh)
      exponents =
          ap (λ a. field.add a (inner field hidden yh)) (inner-prefix public_attrs ya yh ea)
          ∙ sym (inner-append field public_attrs hidden ya yh ea)

  -- A credential on public and hidden attributes, under a key made from as many secrets for each:
  -- prepared by the holder, signed by the issuer, unblinded by the holder, it verifies on all of
  -- them, the public ones first. Neither side fails, whatever the random scalars.
  pub blind_issuance :
      (x : Scalar) (ya yh public_attrs hidden : List Scalar) (f r : ℕ → Scalar)
      → length public_attrs ≡ length ya
      → length hidden ≡ length yh
      → let key = key_of x (ya ++ yh) in
        (prepare_blind_sign hidden (some (points g1 yh)) (supply f) >>= λ (proof, d).
        blind_sign (some key.secret_key) (some key.public_key) (some proof) public_attrs (supply r)
        >>= λ s. unblind (some s) (some d) >>= λ s'.
            ps_verify (some s') (public_attrs ++ hidden) (some key.public_key))
        ≡ ok true
  blind_issuance x ya yh public_attrs hidden f r ea eh =
      rw (prepare-eq hidden yh f eh, made)
        (issue x ya yh public_attrs hidden _ _ _ (f 0) r ea eh
          (length-answers hidden (commitment hidden yh (f 0)) g1.gen ys later_draws ∙ eh) accept)
    where
      ys : List G1
      ys = map (λ y. g1.smul y g1.gen) yh

      later_draws : ℕ → Scalar
      later_draws j = f (j + 1)

      same : length hidden ≡ length ys
      same = omega (arith, eh, length-map (λ (y : Scalar). g1.smul y g1.gen) yh)

      made :
          prove_multi_exp
            (some (f 0))
            hidden
            (some (commitment hidden yh (f 0)))
            (some g1.gen)
            (map some ys)
            (supply later_draws)
          ≡ ok (honest (f 0) hidden (commitment hidden yh (f 0)) g1.gen ys later_draws)
      made = prove_multi_exp-eq (f 0) hidden (commitment hidden yh (f 0)) g1.gen ys later_draws same

      accept :
          verify_multi_exp
            (some g1.gen)
            (map some ys)
            (some (honest (f 0) hidden (commitment hidden yh (f 0)) g1.gen ys later_draws))
          ≡ ok true
      accept = rw made at (verify_multi_exp-prove_multi_exp (f 0) hidden g1.gen ys later_draws same)
