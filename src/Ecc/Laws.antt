-- ===== src/Ecc/Laws.antt =====
-- Consequences of the laws of the scalars and of the groups.
use orionlink.Prelude.{Bool, ◌≡◌, ◌≢◌, refl, sym, ap, ◌∙◌, ◌≡⟨◌⟩◌, ◌∎}
use orionlink.Ecc.{Field, Curve}

module _ (F : Field) where
  open F use {Scalar, zero, add, mul, neg}

  pub add-zero : (a : Scalar) → add a zero ≡ a
  add-zero a = rw (F.add_comm a zero) (F.zero-add a)

  pub add-neg : (a : Scalar) → add a (neg a) ≡ zero
  add-neg a = rw (F.add_comm a (neg a)) (F.neg-add a)

  pub add-mul : (a b c : Scalar) → mul (add a b) c ≡ add (mul a c) (mul b c)
  add-mul a b c = rw (F.mul_comm (add a b) c, F.mul-add, F.mul_comm c a, F.mul_comm c b) refl

  pub mul-one : (a : Scalar) → mul a F.one ≡ a
  mul-one a = rw (F.mul_comm a F.one) (F.one-mul a)

module _ {F : Field} (C : Curve F) where
  open C use {Point, zero, add, neg, smul}

  pub point_add-zero : (p : Point) → add p zero ≡ p
  point_add-zero p = rw (C.add_comm p zero) (C.zero-add p)

  pub add_cancel_left : (p q r : Point) → add p q ≡ add p r → q ≡ r
  add_cancel_left p q r h =
      q
      ≡⟨ sym (C.zero-add q) ⟩ add zero q
      ≡⟨ ap (λ x. add x q) (sym (C.neg-add p)) ⟩ add (add (neg p) p) q
      ≡⟨ C.add_assoc _ _ _ ⟩ add (neg p) (add p q)
      ≡⟨ ap (add (neg p)) h ⟩ add (neg p) (add p r)
      ≡⟨ sym (C.add_assoc _ _ _) ⟩ add (add (neg p) p) r
      ≡⟨ ap (λ x. add x r) (C.neg-add p) ⟩ add zero r
      ≡⟨ C.zero-add r ⟩ r ∎

  pub add_interchange : (p q r s : Point) → add (add p q) (add r s) ≡ add (add p r) (add q s)
  add_interchange p q r s =
      add (add p q) (add r s)
      ≡⟨ C.add_assoc _ _ _ ⟩ add p (add q (add r s))
      ≡⟨ ap (add p) (sym (C.add_assoc _ _ _)) ⟩ add p (add (add q r) s)
      ≡⟨ ap (λ x. add p (add x s)) (C.add_comm q r) ⟩ add p (add (add r q) s)
      ≡⟨ ap (add p) (C.add_assoc _ _ _) ⟩ add p (add r (add q s))
      ≡⟨ sym (C.add_assoc _ _ _) ⟩ add (add p r) (add q s) ∎

  -- `p + q - p` in the order in which `Unblind` subtracts.
  pub add-neg_cancel : (p q : Point) → add (add q p) (neg p) ≡ q
  add-neg_cancel p q =
      add (add q p) (neg p)
      ≡⟨ C.add_assoc _ _ _ ⟩ add q (add p (neg p))
      ≡⟨ ap (add q) (C.add_comm p (neg p) ∙ C.neg-add p) ⟩ add q zero
      ≡⟨ point_add-zero q ⟩ q ∎

  pub smul_comm : (a b : F.Scalar) (p : Point) → smul a (smul b p) ≡ smul b (smul a p)
  smul_comm a b p =
      smul a (smul b p)
      ≡⟨ sym (C.mul-smul a b p) ⟩ smul (F.mul a b) p
      ≡⟨ ap (λ x. smul x p) (F.mul_comm a b) ⟩ smul (F.mul b a) p
      ≡⟨ C.mul-smul b a p ⟩ smul b (smul a p) ∎

  -- `kInv.Inv(k)` undoes `k`.
  pub inv-smul : (k : F.Scalar) (p : Point) → k ≢ F.zero → smul (F.inv k) (smul k p) ≡ p
  inv-smul k p h =
      smul (F.inv k) (smul k p)
      ≡⟨ sym (C.mul-smul _ _ p) ⟩ smul (F.mul (F.inv k) k) p
      ≡⟨ ap (λ x. smul x p) (F.inv-mul k h) ⟩ smul F.one p
      ≡⟨ C.one-smul p ⟩ p ∎

  pub is_equal_refl : (p : Point) → C.is_equal p p ≡ Bool.true
  is_equal_refl p = (C.is_equal_iff p p).1 refl

  -- The response of a Σ-protocol in one coordinate.
  pub response :
      (c x r : F.Scalar) (p : Point)
      → smul (F.add (F.mul c x) r) p ≡ add (smul r p) (smul c (smul x p))
  response c x r p =
      smul (F.add (F.mul c x) r) p
      ≡⟨ C.add-smul _ _ p ⟩ add (smul (F.mul c x) p) (smul r p)
      ≡⟨ C.add_comm _ _ ⟩ add (smul r p) (smul (F.mul c x) p)
      ≡⟨ ap (add (smul r p)) (C.mul-smul c x p) ⟩ add (smul r p) (smul c (smul x p)) ∎

  pub smul-zero_point : (a : F.Scalar) → smul a zero ≡ zero
  smul-zero_point a = add_cancel_left (smul a zero) (smul a zero) zero (
      sym (C.smul-add a zero zero)
      ∙ ap (smul a) (C.zero-add zero)
      ∙ sym (point_add-zero (smul a zero)))

  pub zero-smul : (p : Point) → smul F.zero p ≡ zero
  zero-smul p = add_cancel_left (smul F.zero p) (smul F.zero p) zero (
      sym (C.add-smul F.zero F.zero p)
      ∙ ap (λ a. smul a p) (F.zero-add F.zero)
      ∙ sym (point_add-zero (smul F.zero p)))

  -- `a - c` acts as the difference.
  pub sub-smul :
      (a c : F.Scalar) (p : Point) → smul (F.add a (F.neg c)) p ≡ add (smul a p) (smul (F.neg c) p)
  sub-smul a c p = C.add-smul a (F.neg c) p

  pub smul-neg_cancel : (c : F.Scalar) (p : Point) → add (smul (F.neg c) p) (smul c p) ≡ zero
  smul-neg_cancel c p =
      sym (C.add-smul (F.neg c) c p) ∙ ap (λ a. smul a p) (F.neg-add c) ∙ zero-smul p

  -- From `u = r + s` and `v = r + t`: what `u` exceeds `v` by, `s` exceeds `t` by.
  pub add_swap : (r s t u v : Point) → u ≡ add r s → v ≡ add r t → add u t ≡ add v s
  add_swap r s t u v hu hv =
      add u t
      ≡⟨ ap (λ x. add x t) hu ⟩ add (add r s) t
      ≡⟨ C.add_assoc r s t ⟩ add r (add s t)
      ≡⟨ ap (add r) (C.add_comm s t) ⟩ add r (add t s)
      ≡⟨ sym (C.add_assoc r t s) ⟩ add (add r t) s
      ≡⟨ ap (λ x. add x s) (sym hv) ⟩ add v s ∎

  -- `p + (q + r) + s = p + (s + r) + q`.
  pub add_regroup : (p q r s : Point) → add (add p (add q r)) s ≡ add (add p (add s r)) q
  add_regroup p q r s =
      add (add p (add q r)) s
      ≡⟨ C.add_assoc _ _ _ ⟩ add p (add (add q r) s)
      ≡⟨ ap (add p) (C.add_assoc _ _ _ ∙ ap (add q) (C.add_comm r s) ∙ C.add_comm _ _) ⟩
        add p (add (add s r) q)
      ≡⟨ sym (C.add_assoc _ _ _) ⟩ add (add p (add s r)) q ∎
