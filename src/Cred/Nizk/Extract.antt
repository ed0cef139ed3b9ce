-- ===== src/Cred/Nizk/Extract.antt =====
-- Special soundness: two accepted proofs with the same announcement and two challenges give the
-- exponents behind the commitment.
use orionlink.Prelude.{
  ◌≡◌, ◌≢◌, sym, ap, ap₂, ◌∙◌, true, some, List, [], ◌∷◌, map, length, arith, ok, ◌≡⟨◌⟩◌, ◌∎,
}
use orionlink.Ecc.{Bls, Field, Curve, Scalar, G1}
use orionlink.Ecc.Laws
use orionlink.Crypto.{Crypto}
use orionlink.Cred.Sums.{lin}
use orionlink.Cred.Nizk.{verify_multi_exp}
use orionlink.Cred.Nizk.Complete.{whole, challenge, verify_multi_exp-eq}

-- `(z - z') / (c - c')`, and the same for lists.
abbrev pub quotient : (F : Field) → F.Scalar → F.Scalar → F.Scalar → F.Scalar
quotient F u z z' = F.mul u (F.add z (F.neg z'))

abbrev pub quotients : (F : Field) → F.Scalar → List F.Scalar → List F.Scalar → List F.Scalar
quotients F u [] zs' = []
quotients F u (z ∷ zs) [] = []
quotients F u (z ∷ zs) (z' ∷ zs') = quotient F u z z' ∷ quotients F u zs zs'

module _ {F : Field} (C : Curve F) where
  open C use {Point, add, smul}

  quotient-smul :
      (u z z' : F.Scalar) (p : Point)
      → add (smul (quotient F u z z') p) (smul u (smul z' p)) ≡ smul u (smul z p)
  quotient-smul u z z' p =
      add (smul (quotient F u z z') p) (smul u (smul z' p))
      ≡⟨ ap (λ x. add x (smul u (smul z' p))) (C.mul-smul u (F.add z (F.neg z')) p) ⟩
        add (smul u (smul (F.add z (F.neg z')) p)) (smul u (smul z' p))
      ≡⟨ sym (C.smul-add u _ _) ⟩ smul u (add (smul (F.add z (F.neg z')) p) (smul z' p))
      ≡⟨ ap (smul u) (sym (C.add-smul (F.add z (F.neg z')) z' p)) ⟩
        smul u (smul (F.add (F.add z (F.neg z')) z') p)
      ≡⟨ ap (λ a. smul u (smul a p))
          (F.add_assoc z (F.neg z') z' ∙ ap (F.add z) (F.neg-add z') ∙ Laws.add-zero F z) ⟩
        smul u (smul z p) ∎

  quotients-lin :
      (u : F.Scalar) (zs zs' : List F.Scalar) (ys : List Point)
      → length zs ≡ length zs'
      → add (lin C (quotients F u zs zs') ys) (smul u (lin C zs' ys)) ≡ smul u (lin C zs ys)
  unfolding lin
  quotients-lin u [] [] ys e = C.zero-add _
  quotients-lin u [] (z' ∷ zs') ys e = absurd (omega arith)
  quotients-lin u (z ∷ zs) [] ys e = absurd (omega arith)
  quotients-lin u (z ∷ zs) (z' ∷ zs') [] e = C.zero-add _
  quotients-lin u (z ∷ zs) (z' ∷ zs') (y ∷ ys) e =
      ap (add _) (C.smul-add u _ _)
      ∙ Laws.add_interchange C _ _ _ _
      ∙ ap₂ add (quotient-smul u z z' y) (quotients-lin u zs zs' ys (omega arith))
      ∙ sym (C.smul-add u _ _)

  -- The same for a whole left side of the verification equation.
  quotient_left :
      (u z0 z0' : F.Scalar) (zs zs' : List F.Scalar) (g : Point) (ys : List Point)
      → length zs ≡ length zs'
      → add
          (add (smul (quotient F u z0 z0') g) (lin C (quotients F u zs zs') ys))
          (smul u (add (smul z0' g) (lin C zs' ys)))
        ≡ smul u (add (smul z0 g) (lin C zs ys))
  quotient_left u z0 z0' zs zs' g ys e =
      ap (add _) (C.smul-add u _ _)
      ∙ Laws.add_interchange C _ _ _ _
      ∙ ap₂ add (quotient-smul u z0 z0' g) (quotients-lin u zs zs' ys e)
      ∙ sym (C.smul-add u _ _)

  -- `c1 + u (r + c' c1) = u (r + c c1)` where `u` is the inverse of `c - c'`.
  challenge_right :
      (c c' : F.Scalar) (c1 r : Point)
      → F.add c (F.neg c') ≢ F.zero
      → let u = F.inv (F.add c (F.neg c')) in
        add c1 (smul u (add r (smul c' c1))) ≡ smul u (add r (smul c c1))
  challenge_right c c' c1 r apart =
      let u = F.inv (F.add c (F.neg c')) in
      add c1 (smul u (add r (smul c' c1)))
      ≡⟨ ap₂ add (sym (C.one-smul c1) ∙ ap (λ a. smul a c1) (sym (F.inv-mul _ apart)))
          (C.smul-add u r (smul c' c1)) ⟩
        add (smul (quotient F u c c') c1) (add (smul u r) (smul u (smul c' c1)))
      ≡⟨ ap (add _) (C.add_comm _ _) ∙ sym (C.add_assoc _ _ _) ⟩
        add (add (smul (quotient F u c c') c1) (smul u (smul c' c1))) (smul u r)
      ≡⟨ ap (λ x. add x (smul u r)) (quotient-smul u c c' c1) ∙ C.add_comm _ _ ⟩
        add (smul u r) (smul u (smul c c1))
      ≡⟨ sym (C.smul-add u r (smul c c1)) ⟩ smul u (add r (smul c c1)) ∎

  pub extract_from :
      (c c' z0 z0' : F.Scalar) (zs zs' : List F.Scalar) (g c1 r : Point) (ys : List Point)
      → length zs ≡ length zs'
      → F.add c (F.neg c') ≢ F.zero
      → add (smul z0 g) (lin C zs ys) ≡ add r (smul c c1)
      → add (smul z0' g) (lin C zs' ys) ≡ add r (smul c' c1)
      → let u = F.inv (F.add c (F.neg c')) in
        c1 ≡ add (smul (quotient F u z0 z0') g) (lin C (quotients F u zs zs') ys)
  extract_from c c' z0 z0' zs zs' g c1 r ys e apart eq eq' =
      let u = F.inv (F.add c (F.neg c')) in
      Laws.add_cancel_left C (smul u (add r (smul c' c1))) _ _ (
        C.add_comm _ _
        ∙ challenge_right c c' c1 r apart
        ∙ ap (smul u) (sym eq)
        ∙ sym (quotient_left u z0 z0' zs zs' g ys e)
        ∙ ap
            (λ x.
              add (add (smul (quotient F u z0 z0') g) (lin C (quotients F u zs zs') ys)) (smul u x))
            eq'
        ∙ C.add_comm _ _)

module _ ⦃b : Bls⦄ where
  open b use {field, g1}

  -- Two accepted proofs about the same commitment with the same announcement and a response for
  -- each base, under two hash functions that give different challenges: the quotients of the response differences by the
  -- challenge difference are exponents of the commitment.
  pub extract_exponents :
      (h h' : Crypto) (g c1 r1 : G1) (z0 z0' : Scalar) (zs zs' : List Scalar) (ys : List G1)
      → length zs ≡ length ys
      → length zs' ≡ length ys
      → verify_multi_exp ⦃h = h⦄ (some g) (map some ys) (some (whole c1 r1 z0 zs)) ≡ ok true
      → verify_multi_exp ⦃h = h'⦄ (some g) (map some ys) (some (whole c1 r1 z0' zs')) ≡ ok true
      → let d = field.add (challenge ⦃h = h⦄ ys c1 r1) (field.neg (challenge ⦃h = h'⦄ ys c1 r1)) in
        d ≢ field.zero
        → c1
          ≡ g1.add
              (g1.smul (quotient field (field.inv d) z0 z0') g)
              (lin g1 (quotients field (field.inv d) zs zs') ys)
  extract_exponents h h' g c1 r1 z0 z0' zs zs' ys e e' accept accept' apart =
      extract_from g1 _ _ z0 z0' zs zs' g c1 r1 ys (omega (arith, e, e')) apart
        (equation h z0 zs e accept) (equation h' z0' zs' e' accept')
    where
      equation :
          (h : Crypto) (z0 : Scalar) (zs : List Scalar)
          → length zs ≡ length ys
          → verify_multi_exp ⦃h = h⦄ (some g) (map some ys) (some (whole c1 r1 z0 zs)) ≡ ok true
          → g1.add (g1.smul z0 g) (lin g1 zs ys)
            ≡ g1.add r1 (g1.smul (challenge ⦃h = h⦄ ys c1 r1) c1)
      equation h z0 zs e accept =
          (g1.is_equal_iff _ _).0 (cc (accept, verify_multi_exp-eq ⦃h = h⦄ g c1 r1 z0 zs ys e))
