-- ===== src/Cred/PsSig.antt =====
-- lib/PSSig.go: key generation, signing, verification, randomization and the wire encoding.
pub mod Correct
pub mod Wire
use orionlink.Prelude.{
  ℕ, suc, ◌+◌, ◌≡◌, Bool, true, false, ◌||◌, Option, none, some, List, [], ◌∷◌, ◌++◌, map, length,
  Bytes, text, bytes_eq, take, drop, ltb, if◌then◌else◌, Result, ok, err, panic, ◌>>=◌, ◌>>◌, deref,
  or_err, fail_if,
}
use orionlink.Ecc.{Bls, Curve, Scalar, G1, G2}
use orionlink.Cred.{Rng, draw, must_draw, PsSignMsg, PsSecretKey, PsPublicKey, PsKey}
use orionlink.Cred.Sums.{add_terms}

module _ ⦃b : Bls⦄ where
  -- `n` draws from number `i` on.
  pub draws : ℕ → ℕ → Rng → Result (List Scalar)
  draws i ℕ.zero rng = ok []
  draws i (suc n) rng = do r ← must_draw (rng i); rs ← draws (i + 1) n rng; ok (r ∷ rs)

  -- The multiples of the generator by the secrets, one pointer for each.
  abbrev pub points : (C : Curve b.field) → List Scalar → List (Option C.Point)
  points C ys = map some (map (λ y. C.smul y C.gen) ys)

  -- The key pair on given secrets: `SetSecretX` and `SetSecretY`, and the body of `PSKeyGen`.
  abbrev pub key_of : Scalar → List Scalar → PsKey
  key_of x ys = record {
    secret_key = record { x = some x; yn = map some ys; big_x = some (b.g1.smul x b.g1.gen) };
    public_key = record {
      yn = points b.g1 ys;
      xhat = some (b.g2.smul x b.g2.gen);
      yhatn = points b.g2 ys;
    };
  }

  pub ps_key_gen : ℕ → Rng → Result PsKey
  ps_key_gen n rng = do x ← must_draw (rng 0); ys ← draws 1 n rng; ok (key_of x ys)

  -- The loop of `PSSign` over the attributes.
  unfoldable pub sign_terms : List Scalar → List (Option Scalar) → G1 → G1 → Result G1
  sign_terms [] yn sigma1 acc = ok acc
  sign_terms (a ∷ attrs) [] sigma1 acc = panic
  sign_terms (a ∷ attrs) (y ∷ yn) sigma1 acc = deref y >>= λ y'.
      sign_terms attrs yn sigma1 (b.g1.add acc (b.g1.smul (b.field.mul a y') sigma1))

  unfoldable pub ps_sign : List Scalar → PsSecretKey → Rng → Result PsSignMsg
  ps_sign attrs sk rng = do
    r ← draw (rng 0)
    let sigma1 = b.g1.smul r b.g1.gen
    x ← deref sk.x
    sigma2 ← sign_terms attrs sk.yn sigma1 (b.g1.smul x sigma1)
    ok (record { sigma1 = some sigma1; sigma2 = some sigma2 })

  -- The two pairings that every verification ends with.
  abbrev pub check_pairing : G1 → G1 → G2 → Bool
  check_pairing sigma1 sigma2 right = b.gt_is_equal (b.pair sigma2 b.g2.gen) (b.pair sigma1 right)

  verify_with : PsSignMsg → List Scalar → PsPublicKey → Result Bool
  verify_with sigma attrs vk = elim sigma.sigma1 [
    | none ↦ ok false
    | some s1 ↦ elim sigma.sigma2 [
      | none ↦ ok false
      | some s2 ↦ elim vk.xhat [
        | none ↦ ok false
        | some xhat ↦
            if ltb (length vk.yn) (length attrs)
            then ok false
            else (add_terms b.g2 (map some attrs) vk.yhatn xhat >>= λ right.
                ok (check_pairing s1 s2 right))
      ]
    ]
  ]

  unfoldable pub ps_verify : Option PsSignMsg → List Scalar → Option PsPublicKey → Result Bool
  unfolding verify_with
  ps_verify none attrs vk = ok false
  ps_verify (some sigma) attrs none = ok false
  ps_verify (some sigma) attrs (some vk) = verify_with sigma attrs vk

  randomize_with : Scalar → Scalar → G1 → G1 → PsSignMsg
  randomize_with k t s1 s2 = record {
    sigma1 = some (b.g1.smul k s1);
    sigma2 = some (b.g1.smul k (b.g1.add s2 (b.g1.smul t s1)));
  }

  -- The randomized signature with its factors `k` and `t`.
  unfoldable pub randomize_sig : Option PsSignMsg → Rng → Result (PsSignMsg × Scalar × Scalar)
  unfolding randomize_with
  randomize_sig sign rng = do
    s ← or_err sign "invalid inputs to Randomize"
    s1 ← or_err s.sigma1 "invalid inputs to Randomize"
    s2 ← or_err s.sigma2 "invalid inputs to Randomize"
    k ← draw (rng 0)
    t ← draw (rng 1)
    ok (randomize_with k t s1 s2, k, t)

  verify_randomized_with : G1 → G1 → Scalar → List Scalar → PsPublicKey → Result Bool
  verify_randomized_with s1 s2 t attrs vk = do
    xhat ← deref vk.xhat
    right ← add_terms b.g2 (map some attrs) vk.yhatn xhat
    ok (check_pairing s1 s2 (b.g2.add right (b.g2.smul t b.g2.gen)))

  unfoldable pub verify_randomized_sig :
      Option PsSignMsg → Scalar → List Scalar → PsPublicKey → Result Bool
  unfolding verify_randomized_with
  verify_randomized_sig none t attrs vk = ok false
  verify_randomized_sig (some s) t attrs vk = elim s.sigma1 [
    | none ↦ ok false
    | some s1 ↦ elim s.sigma2 [
      | none ↦ ok false
      | some s2 ↦ verify_randomized_with s1 s2 t attrs vk
    ]
  ]

  unfoldable pub to_json : Option PsSignMsg → Bytes
  to_json none = text "null"
  to_json (some m) = elim m.sigma1 [
    | none ↦ text "null"
    | some s1 ↦ elim m.sigma2 [
      | none ↦ text "null"
      | some s2 ↦ b.g1.compress s1 ++ b.g1.compress s2
    ]
  ]

  -- `FromJSON` on a text that is shorter than a point. `data[:48]` reaches into the capacity, and
  -- panics only beyond it; `data[48:]` always panics, since it starts behind the text.
  abbrev pub from_short : Bytes → Result PsSignMsg
  from_short bytes =
      let room = bytes ++ b.behind bytes in
      if ltb (length room) b.g1.size
      then panic
      else (or_err (b.g1.set_bytes (take b.g1.size room)) "decode sigma1 G1" >>= λ s1. panic)

  unfoldable pub from_json : Bytes → Result PsSignMsg
  from_json bytes =
      if bytes_eq bytes (text "null")
      then ok (record { sigma1 = none; sigma2 = none })
      else if ltb (length bytes) b.g1.size
      then from_short bytes
      else (or_err (b.g1.set_bytes (take b.g1.size bytes)) "decode sigma1 G1" >>= λ s1.
          or_err (b.g1.set_bytes (drop b.g1.size bytes)) "decode sigma2 G1" >>= λ s2.
          ok (record { sigma1 = some s1; sigma2 = some s2 }))
