-- ===== src/Cred/PsSig/Wire.antt =====
-- The wire encoding of signatures.
use orionlink.Prelude.{
  ◌+◌, ◌≡◌, refl, sym, ap, ◌∙◌, false, Option, none, some, ◌++◌, length, length-append, take-append,
  drop-append, text, bytes_eq, bytes_eq_iff, bytes_eq_refl, take, drop, ltb, arith, ok, Bool-cases,
  inl, inr,
}
use orionlink.Ecc.{Bls, G1}
use orionlink.Cred.{PsSignMsg}
use orionlink.Cred.PsSig.{to_json, from_json}

module _ ⦃b : Bls⦄ where
  open b use {g1}

  pub length-pair : (s1 s2 : G1) → length (g1.compress s1 ++ g1.compress s2) ≡ g1.size + g1.size
  length-pair s1 s2 = omega (
    arith,
    length-append (g1.compress s1) (g1.compress s2),
    g1.length-compress s1,
    g1.length-compress s2,
  )

  not_null : (s1 s2 : G1) → bytes_eq (g1.compress s1 ++ g1.compress s2) (text "null") ≡ false
  not_null s1 s2 = elim (Bool-cases (bytes_eq (g1.compress s1 ++ g1.compress s2) (text "null"))) [
    | inl same ↦
        absurd
          (omega (arith, length-pair s1 s2, g1.size-long, ap length ((bytes_eq_iff _ _).0 same)))
    | inr other ↦ other
  ]

  take-pair : (s1 s2 : G1) → take g1.size (g1.compress s1 ++ g1.compress s2) ≡ g1.compress s1
  take-pair s1 s2 =
      ap (λ n. take n (g1.compress s1 ++ g1.compress s2)) (sym (g1.length-compress s1))
      ∙ take-append (g1.compress s1) (g1.compress s2)

  drop-pair : (s1 s2 : G1) → drop g1.size (g1.compress s1 ++ g1.compress s2) ≡ g1.compress s2
  drop-pair s1 s2 =
      ap (λ n. drop n (g1.compress s1 ++ g1.compress s2)) (sym (g1.length-compress s1))
      ∙ drop-append (g1.compress s1) (g1.compress s2)

  pub from_json-pair :
      (s1 s2 : G1)
      → from_json (g1.compress s1 ++ g1.compress s2)
        ≡ ok (record { sigma1 = some s1; sigma2 = some s2 })
  unfolding from_json
  from_json-pair s1 s2 =
      rw
        (
          not_null s1 s2,
          long_enough,
          take-pair s1 s2,
          drop-pair s1 s2,
          g1.set_bytes-compress s1,
          g1.set_bytes-compress s2,
        )
        refl
    where
      long_enough : ltb (length (g1.compress s1 ++ g1.compress s2)) g1.size ≡ false
      long_enough = ground (arith, length-pair s1 s2)

  -- A signature that lacks a point is sent like one that lacks both.
  abbrev pub both : Option G1 → Option G1 → PsSignMsg
  both (some s1) (some s2) = record { sigma1 = some s1; sigma2 = some s2 }
  both none _ = record { sigma1 = none; sigma2 = none }
  both (some _) none = record { sigma1 = none; sigma2 = none }

  null : from_json (text "null") ≡ ok (record { sigma1 = none; sigma2 = none })
  unfolding from_json
  null = rw (bytes_eq_refl (text "null")) refl

  -- Decoding the encoding of a signature gives that signature if it has both points, and one
  -- without points if either is missing.
  pub from_json-to_json :
      (o1 o2 : Option G1)
      → from_json (to_json (some (record { sigma1 = o1; sigma2 = o2 }))) ≡ ok (both o1 o2)
  unfolding to_json
  from_json-to_json none o2 = null
  from_json-to_json (some s1) none = null
  from_json-to_json (some s1) (some s2) = from_json-pair s1 s2
