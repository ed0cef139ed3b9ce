-- ===== src/Cred/Sums.antt =====
-- The loops `for i := range as { tmp.ScalarMult(as[i], Ys[i]); acc.Add(acc, tmp) }` of lib/, and
-- the sums that they compute.
use orionlink.Prelude.{
  ◌≤◌, ◌≡◌, refl, sym, ap, ap₂, ◌∙◌, Option, some, List, [], ◌∷◌, map, length, arith, Result, ok,
  panic, ◌>>=◌, deref, ◌≡⟨◌⟩◌, ◌∎,
}
use orionlink.Ecc.{Field, Curve}
use orionlink.Ecc.Laws
use orionlink.Ecc.Laws.{point_add-zero, add_interchange, response, smul_comm}

module _ (F : Field) where
  unfoldable pub inner : List F.Scalar → List F.Scalar → F.Scalar
  inner [] ys = F.zero
  inner (a ∷ cs) [] = F.zero
  inner (a ∷ cs) (y ∷ ys) = F.add (F.mul a y) (inner cs ys)

  -- `zs[i] = c * xs[i] + rs[i]`
  abbrev pub responses : F.Scalar → List F.Scalar → List F.Scalar → List F.Scalar
  responses c [] rs = []
  responses c (x ∷ xs) [] = []
  responses c (x ∷ xs) (r ∷ rs) = F.add (F.mul c x) r ∷ responses c xs rs

  pub length-responses :
      (c : F.Scalar) (xs rs : List F.Scalar)
      → length rs ≡ length xs
      → length (responses c xs rs) ≡ length xs
  length-responses c [] rs h = refl
  length-responses c (x ∷ xs) [] h = absurd (omega arith)
  length-responses c (x ∷ xs) (r ∷ rs) h = omega (arith, length-responses c xs rs (omega arith))

module _ {F : Field} (C : Curve F) where
  open C use {Point, zero, add, smul}

  -- A nil element and an index out of range are run-time panics.
  unfoldable pub add_terms : List (Option F.Scalar) → List (Option Point) → Point → Result Point
  add_terms [] ys acc = ok acc
  add_terms (a ∷ cs) [] acc = panic
  add_terms (a ∷ cs) (y ∷ ys) acc =
      deref a >>= λ a'. deref y >>= λ y'. add_terms cs ys (add acc (smul a' y'))

  -- The linear combination of points, up to the shorter list.
  unfoldable pub lin : List F.Scalar → List Point → Point
  lin [] ys = zero
  lin (a ∷ cs) [] = zero
  lin (a ∷ cs) (y ∷ ys) = add (smul a y) (lin cs ys)

  pub lin-nil : (ys : List Point) → lin [] ys ≡ zero
  unfolding lin
  lin-nil ys = refl

  pub lin-cons :
      (a : F.Scalar) (y : Point) (cs : List F.Scalar) (ys : List Point)
      → lin (a ∷ cs) (y ∷ ys) ≡ add (smul a y) (lin cs ys)
  unfolding lin
  lin-cons a y cs ys = refl

  pub add_terms-lin :
      (cs : List F.Scalar) (ys : List Point) (acc : Point)
      → length cs ≤ length ys
      → add_terms (map some cs) (map some ys) acc ≡ ok (add acc (lin cs ys))
  unfolding add_terms lin
  add_terms-lin [] ys acc h = ap ok (sym (point_add-zero C acc))
  add_terms-lin (a ∷ cs) [] acc h = absurd (omega arith)
  add_terms-lin (a ∷ cs) (y ∷ ys) acc h =
      add_terms-lin cs ys (add acc (smul a y)) (omega arith) ∙ ap ok (C.add_assoc _ _ _)

  smul_zero : (a : F.Scalar) → smul a zero ≡ zero
  smul_zero a =
      Laws.add_cancel_left C (smul a zero) (smul a zero) zero
        (sym (C.smul-add a zero zero) ∙ ap (smul a) (C.zero-add zero) ∙ sym (point_add-zero C _))

  -- The responses combine to the announcement plus the challenge times the commitment.
  pub lin-responses :
      (c : F.Scalar) (xs rs : List F.Scalar) (ys : List Point)
      → length rs ≡ length xs
      → length xs ≤ length ys
      → lin (responses F c xs rs) ys ≡ add (lin rs ys) (smul c (lin xs ys))
  unfolding lin
  lin-responses c [] [] ys h k = sym (ap (add zero) (smul_zero c) ∙ C.zero-add zero)
  lin-responses c [] (r ∷ rs) ys h k = absurd (omega arith)
  lin-responses c (x ∷ xs) [] ys h k = absurd (omega arith)
  lin-responses c (x ∷ xs) (r ∷ rs) [] h k = absurd (omega arith)
  lin-responses c (x ∷ xs) (r ∷ rs) (y ∷ ys) h k =
      add (smul (F.add (F.mul c x) r) y) (lin (responses F c xs rs) ys)
      ≡⟨ ap₂ add (response C c x r y) (lin-responses c xs rs ys (omega arith) (omega arith)) ⟩
        add (add (smul r y) (smul c (smul x y))) (add (lin rs ys) (smul c (lin xs ys)))
      ≡⟨ add_interchange C _ _ _ _ ⟩
        add (add (smul r y) (lin rs ys)) (add (smul c (smul x y)) (smul c (lin xs ys)))
      ≡⟨ ap (add (lin (r ∷ rs) (y ∷ ys))) (sym (C.smul-add c _ _)) ⟩
        add (lin (r ∷ rs) (y ∷ ys)) (smul c (lin (x ∷ xs) (y ∷ ys))) ∎

  pub smul-lin :
      (c : F.Scalar) (xs : List F.Scalar) (ys : List Point)
      → lin xs (map (smul c) ys) ≡ smul c (lin xs ys)
  unfolding lin
  smul-lin c [] ys = sym (smul_zero c)
  smul-lin c (x ∷ xs) [] = sym (smul_zero c)
  smul-lin c (x ∷ xs) (y ∷ ys) =
      ap₂ add (smul_comm C x c y) (smul-lin c xs ys) ∙ sym (C.smul-add c _ _)

  -- Points that are multiples of one point: the sum is the multiple by the inner product.
  pub zero-smul : (p : Point) → smul F.zero p ≡ zero
  zero-smul p = Laws.add_cancel_left C (smul F.zero p) (smul F.zero p) zero (
      sym (C.add-smul F.zero F.zero p)
      ∙ ap (λ a. smul a p) (F.zero-add F.zero)
      ∙ sym (point_add-zero C _))

  pub lin-multiples :
      (cs ys : List F.Scalar) (p : Point) → lin cs (map (λ y. smul y p) ys) ≡ smul (inner F cs ys) p
  unfolding lin inner
  lin-multiples [] ys p = sym (zero-smul p)
  lin-multiples (a ∷ cs) [] p = sym (zero-smul p)
  lin-multiples (a ∷ cs) (y ∷ ys) p =
      ap₂ add (sym (C.mul-smul a y p)) (lin-multiples cs ys p) ∙ sym (C.add-smul _ _ p)
