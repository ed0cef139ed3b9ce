-- ===== src/Cred/PsSig/Correct.antt =====
-- A signature verifies exactly when its second point is the right multiple of the first, so
-- signatures and randomized signatures verify.
use orionlink.Prelude.{
  ℕ, ◌≤◌, ◌≡◌, refl, sym, ap, ◌∙◌, ◌↔◌, true, false, ◌≢◌, some, List, [], ◌∷◌, map, length, ltb,
  arith, ok, ◌>>=◌,
}
use orionlink.Ecc.{Bls, Curve, Scalar, G1}
use orionlink.Ecc.Laws
use orionlink.Cred.{supply}
use orionlink.Cred.Sums
use orionlink.Cred.Sums.{add_terms, add_terms-lin, lin, lin-multiples, inner}
use orionlink.Cred.PsSig.{
  points, key_of, sign_terms, ps_sign, check_pairing, ps_verify, randomize_sig,
  verify_randomized_sig,
}

pub length-map {ℓ κ} :
    {A : Type ℓ} {B : Type κ} (f : A → B) (xs : List A) → length (map f xs) ≡ length xs
length-map f [] = refl
length-map f (x ∷ xs) = omega (arith, length-map f xs)

module _ ⦃b : Bls⦄ where
  open b use {field, g1, g2}

  length-points : (C : Curve field) (ys : List Scalar) → length (points C ys) ≡ length ys
  length-points C [] = refl
  length-points C (y ∷ ys) = omega (arith, length-points C ys)

  -- A sum over a key's points is a multiple of the generator.
  pub add_terms-points :
      (C : Curve field) (x : Scalar) (xs ys : List Scalar)
      → length xs ≤ length ys
      → add_terms C (map some xs) (points C ys) (C.smul x C.gen)
        ≡ ok (C.smul (field.add x (inner field xs ys)) C.gen)
  add_terms-points C x xs ys h =
      add_terms-lin C xs (map (λ y. C.smul y C.gen) ys) (C.smul x C.gen)
        (omega (arith, length-map (λ y. C.smul y C.gen) ys))
      ∙ ap (λ p. ok (C.add (C.smul x C.gen) p)) (lin-multiples C xs ys C.gen)
      ∙ ap ok (sym (C.add-smul _ _ _))

  -- The pairing check compares discrete logarithms.
  pub check_pairing_iff :
      (s1 s2 : G1) (e : Scalar)
      → (check_pairing s1 s2 (g2.smul e g2.gen) ≡ true) ↔ (s2 ≡ g1.smul e s1)
  check_pairing_iff s1 s2 e = (
    (λ h.
        b.pair_injective s2 (g1.smul e s1)
          ((b.gt_is_equal_iff _ _).0 h ∙ sym (b.pair-smul e s1 g2.gen))),
    (λ h. (b.gt_is_equal_iff _ _).1 (ap (λ p. b.pair p g2.gen) h ∙ b.pair-smul e s1 g2.gen)),
  )

  sign_terms-inner :
      (xs ys : List Scalar) (s1 acc : G1)
      → length xs ≤ length ys
      → sign_terms xs (map some ys) s1 acc ≡ ok (g1.add acc (g1.smul (inner field xs ys) s1))
  unfolding sign_terms inner
  sign_terms-inner [] ys s1 acc h =
      ap ok (sym (ap (g1.add acc) (Sums.zero-smul g1 s1) ∙ Laws.point_add-zero g1 acc))
  sign_terms-inner (x ∷ xs) [] s1 acc h = absurd (omega arith)
  sign_terms-inner (x ∷ xs) (y ∷ ys) s1 acc h =
      sign_terms-inner xs ys s1 _ (omega arith)
      ∙ ap ok (g1.add_assoc _ _ _ ∙ ap (g1.add acc) (sym (g1.add-smul _ _ s1)))

  -- The exponent that a signature on the attributes has under the secrets.
  abbrev pub exponent : Scalar → List Scalar → List Scalar → Scalar
  exponent x ys attrs = field.add x (inner field attrs ys)

  pub ps_sign-eq :
      (x : Scalar) (ys attrs : List Scalar) (f : ℕ → Scalar)
      → length attrs ≤ length ys
      → let s1 = g1.smul (f 0) g1.gen in
        ps_sign attrs (key_of x ys).secret_key (supply f)
        ≡ ok (record { sigma1 = some s1; sigma2 = some (g1.smul (exponent x ys attrs) s1) })
  unfolding ps_sign
  ps_sign-eq x ys attrs f h = rw (sign_terms-inner attrs ys _ _ h) (
      ap (λ s. ok (record { sigma1 = some (g1.smul (f 0) g1.gen); sigma2 = some s }))
        (sym (g1.add-smul _ _ _)))

  pub ps_verify-eq :
      (x : Scalar) (ys attrs : List Scalar) (s1 s2 : G1)
      → length attrs ≤ length ys
      → ps_verify
          (some (record { sigma1 = some s1; sigma2 = some s2 }))
          attrs
          (some (key_of x ys).public_key)
        ≡ ok (check_pairing s1 s2 (g2.smul (exponent x ys attrs) g2.gen))
  unfolding ps_verify
  ps_verify-eq x ys attrs s1 s2 h = rw (long_enough, add_terms-points g2 x attrs ys h) refl
    where
      long_enough : ltb (length (points g1 ys)) (length attrs) ≡ false
      long_enough = ground (arith, length-points g1 ys)

  -- Under a key pair made from secrets, a signature verifies exactly when its second point is its
  -- first one multiplied by `x` plus the inner product of the attributes with the `y`s.
  pub ps_verify_iff :
      (x : Scalar) (ys attrs : List Scalar) (s1 s2 : G1)
      → length attrs ≤ length ys
      → (ps_verify
            (some (record { sigma1 = some s1; sigma2 = some s2 }))
            attrs
            (some (key_of x ys).public_key)
          ≡ ok true)
        ↔ (s2 ≡ g1.smul (exponent x ys attrs) s1)
  ps_verify_iff x ys attrs s1 s2 h =
      rw (ps_verify-eq x ys attrs s1 s2 h)
        ((λ e. (check_pairing_iff s1 s2 _).0 (cc)), (λ e. ap ok ((check_pairing_iff s1 s2 _).1 e)))

  -- What `PSSign` issues under a key pair, `PSVerify` accepts, for any attributes that the key
  -- has room for and any random scalar.
  pub ps_verify-ps_sign :
      (x : Scalar) (ys attrs : List Scalar) (f : ℕ → Scalar)
      → length attrs ≤ length ys
      → (ps_sign attrs (key_of x ys).secret_key (supply f) >>= λ s.
          ps_verify (some s) attrs (some (key_of x ys).public_key))
        ≡ ok true
  ps_verify-ps_sign x ys attrs f h =
      rw (ps_sign-eq x ys attrs f h) ((ps_verify_iff x ys attrs _ _ h).1 refl)

  pub randomized :
      (k t e : Scalar) (s1 s2 : G1)
      → s2 ≡ g1.smul e s1
      → g1.smul k (g1.add s2 (g1.smul t s1)) ≡ g1.smul (field.add e t) (g1.smul k s1)
  randomized k t e s1 s2 h =
      ap (λ p. g1.smul k (g1.add p (g1.smul t s1))) h
      ∙ ap (g1.smul k) (sym (g1.add-smul e t s1))
      ∙ Laws.smul_comm g1 k (field.add e t) s1

  randomized_iff :
      (k t e : Scalar) (s1 s2 : G1)
      → k ≢ field.zero
      → (g1.smul k (g1.add s2 (g1.smul t s1)) ≡ g1.smul (field.add e t) (g1.smul k s1))
        ↔ (s2 ≡ g1.smul e s1)
  randomized_iff k t e s1 s2 k0 = (back, randomized k t e s1 s2)
    where
      cancel :
          g1.smul k (g1.add s2 (g1.smul t s1)) ≡ g1.smul k (g1.add (g1.smul e s1) (g1.smul t s1))
          → g1.add s2 (g1.smul t s1) ≡ g1.add (g1.smul e s1) (g1.smul t s1)
      cancel h =
          sym (Laws.inv-smul g1 k _ k0) ∙ ap (g1.smul (field.inv k)) h ∙ Laws.inv-smul g1 k _ k0

      back :
          g1.smul k (g1.add s2 (g1.smul t s1)) ≡ g1.smul (field.add e t) (g1.smul k s1)
          → s2 ≡ g1.smul e s1
      back h = Laws.add_cancel_left g1 (g1.smul t s1) s2 (g1.smul e s1) (
          g1.add_comm _ _
          ∙ cancel
              (h ∙ Laws.smul_comm g1 (field.add e t) k s1 ∙ ap (g1.smul k) (g1.add-smul e t s1))
          ∙ g1.add_comm _ _)

  -- A randomized signature verifies with the factor `t` exactly when the signature itself
  -- verifies, under the same attributes, provided that the factor `k` is not zero.
  pub verify_randomized-randomize_iff :
      (x : Scalar) (ys attrs : List Scalar) (s1 s2 : G1) (f : ℕ → Scalar)
      → length attrs ≤ length ys
      → f 0 ≢ field.zero
      → ((randomize_sig (some (record { sigma1 = some s1; sigma2 = some s2 })) (supply f) >>= λ r.
            verify_randomized_sig (some r.0) r.2 attrs (key_of x ys).public_key)
          ≡ ok true)
        ↔ (ps_verify
              (some (record { sigma1 = some s1; sigma2 = some s2 }))
              attrs
              (some (key_of x ys).public_key)
            ≡ ok true)
  unfolding randomize_sig verify_randomized_sig
  verify_randomized-randomize_iff x ys attrs s1 s2 f h k0 = rw (add_terms-points g2 x attrs ys h) (
    (λ e. (ps_verify_iff x ys attrs s1 s2 h).1 (same.0 ((check_pairing_iff _ _ _).0 (accepted e)))),
    (λ e. ap ok (
        ap (check_pairing _ _) (sym (g2.add-smul _ _ _))
        ∙ (check_pairing_iff _ _ _).1 (same.1 ((ps_verify_iff x ys attrs s1 s2 h).0 e)))),
  )
    where
      same :
          (g1.smul (f 0) (g1.add s2 (g1.smul (f 1) s1))
            ≡ g1.smul (field.add (exponent x ys attrs) (f 1)) (g1.smul (f 0) s1))
          ↔ (s2 ≡ g1.smul (exponent x ys attrs) s1)
      same = randomized_iff (f 0) (f 1) (exponent x ys attrs) s1 s2 k0

      accepted :
          {p q : G1} {c d : Scalar}
          → ok (check_pairing p q (g2.add (g2.smul c g2.gen) (g2.smul d g2.gen))) ≡ ok true
          → check_pairing p q (g2.smul (field.add c d) g2.gen) ≡ true
      accepted {p} {q} {c} {d} e = ap (check_pairing p q) (g2.add-smul c d g2.gen) ∙ (cc)
