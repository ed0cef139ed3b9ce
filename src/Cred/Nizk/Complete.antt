-- ===== src/Cred/Nizk/Complete.antt =====
-- Proofs made by the code are accepted by the code.
use orionlink.Prelude.{
  ℕ, zero, suc, ◌+◌, ◌≡◌, refl, sym, ap, ap₂, ◌∙◌, true, some, List, [], ◌∷◌, ◌++◌, map, length,
  ◌==◌, arith, Bytes, ok, ◌>>=◌,
}
use orionlink.Ecc.{Bls, Curve, Scalar, G1}
use orionlink.Ecc.Laws
use orionlink.Crypto.{Crypto}
use orionlink.Cred.{supply}
use orionlink.Cred.Sums.{add_terms-lin, lin, lin-responses, responses, length-responses}
use orionlink.Cred.PsSig.Correct.{length-map}
use orionlink.Cred.Nizk.{
  draw_list, compress_all, prove, verify, compute_multi_exp_challenge, prove_multi_exp,
  verify_multi_exp, MultiExpProof,
}

module _ ⦃b : Bls⦄ where
  open b use {field, g1}

  -- The scalars numbered from `i` on.
  abbrev pub from : ℕ → ℕ → (ℕ → Scalar) → List Scalar
  from i zero f = []
  from i (suc n) f = f i ∷ from (i + 1) n f

  pub length-from : (i n : ℕ) (f : ℕ → Scalar) → length (from i n f) ≡ n
  length-from i zero f = refl
  length-from i (suc n) f = omega (arith, length-from (i + 1) n f)

  pub draw_list-supply : (i n : ℕ) (f : ℕ → Scalar) → draw_list i n (supply f) ≡ ok (from i n f)
  unfolding draw_list
  draw_list-supply i zero f = refl
  draw_list-supply i (suc n) f = rw (draw_list-supply (i + 1) n f) refl

  abbrev pub encoded : (C : Curve field) → List C.Point → Bytes
  encoded C [] = []
  encoded C (y ∷ ys) = C.compress y ++ encoded C ys

  pub compress_all-some :
      (C : Curve field) (ys : List C.Point) → compress_all C (map some ys) ≡ ok (encoded C ys)
  unfolding compress_all
  compress_all-some C [] = refl
  compress_all-some C (y ∷ ys) = rw (compress_all-some C ys) refl

  -- A proof with nothing missing.
  abbrev pub whole : G1 → G1 → Scalar → List Scalar → MultiExpProof
  whole c1 r1 z0 zs = record { c1 = some c1; r1 = some r1; z0 = some z0; zs = some (map some zs) }

  module _ ⦃h : Crypto⦄ where
    -- A Schnorr proof of the secret behind a public point is accepted.
    pub verify-prove :
        (x : Scalar) (f : ℕ → Scalar)
        → (prove (some x) (some (g1.smul x g1.gen)) (supply f) >>= λ pf. verify (some pf)) ≡ ok true
    unfolding prove verify
    verify-prove x f = ap ok ((g1.is_equal_iff _ _).1 (Laws.response g1 _ x (f 0) g1.gen))

    -- The challenge of a multi-exponentiation proof on bases that are all there.
    abbrev pub challenge : List G1 → G1 → G1 → Scalar
    challenge ys p r =
        field.set_bytes (h.sha256 (encoded g1 ys ++ (g1.compress p ++ g1.compress r)))

    pub challenge_lem :
        (ys : List G1) (p r : G1)
        → compute_multi_exp_challenge (map some ys) p r ≡ ok (challenge ys p r)
    unfolding compute_multi_exp_challenge
    challenge_lem ys p r = rw (compress_all-some g1 ys) refl

    -- What the verification of a whole proof computes.
    pub verify_multi_exp-eq :
        (g c1 r1 : G1) (z0 : Scalar) (zs : List Scalar) (ys : List G1)
        → length zs ≡ length ys
        → verify_multi_exp (some g) (map some ys) (some (whole c1 r1 z0 zs))
          ≡ ok (
              g1.is_equal
                (g1.add (g1.smul z0 g) (lin g1 zs ys))
                (g1.add r1 (g1.smul (challenge ys c1 r1) c1)))
    unfolding verify_multi_exp
    verify_multi_exp-eq g c1 r1 z0 zs ys e =
        rw
          (
            same_length,
            challenge_lem ys c1 r1,
            add_terms-lin g1 zs ys (g1.smul z0 g) (omega (arith, e)),
          )
          refl
      where
        same_length : (length (map {A = Scalar} some zs) == length (map {A = G1} some ys)) ≡ true
        same_length = ground (arith, length-map {A = Scalar} some zs, length-map {A = G1} some ys)

    -- The parts of an honest proof: announcement and list of responses.
    abbrev pub announcement : List Scalar → G1 → List G1 → (ℕ → Scalar) → G1
    announcement betas g ys f = g1.add (g1.smul (f 0) g) (lin g1 (from 1 (length betas) f) ys)

    abbrev pub answers : List Scalar → G1 → G1 → List G1 → (ℕ → Scalar) → List Scalar
    answers betas c1 g ys f =
        responses field (challenge ys c1 (announcement betas g ys f)) betas
          (from 1 (length betas) f)

    abbrev pub honest : Scalar → List Scalar → G1 → G1 → List G1 → (ℕ → Scalar) → MultiExpProof
    honest alpha betas c1 g ys f =
        let r1 = announcement betas g ys f in
        whole c1 r1 (field.add (field.mul (challenge ys c1 r1) alpha) (f 0))
          (answers betas c1 g ys f)

    pub length-answers :
        (betas : List Scalar) (c1 g : G1) (ys : List G1) (f : ℕ → Scalar)
        → length (answers betas c1 g ys f) ≡ length betas
    length-answers betas c1 g ys f =
        length-responses field _ betas (from 1 (length betas) f) (length-from 1 (length betas) f)

    -- What the prover returns.
    pub prove_multi_exp-eq :
        (alpha : Scalar) (betas : List Scalar) (c1 g : G1) (ys : List G1) (f : ℕ → Scalar)
        → length betas ≡ length ys
        → prove_multi_exp (some alpha) betas (some c1) (some g) (map some ys) (supply f)
          ≡ ok (honest alpha betas c1 g ys f)
    unfolding prove_multi_exp
    prove_multi_exp-eq alpha betas c1 g ys f e =
        rw
          (
            same_length,
            draw_list-supply 1 (length betas) f,
            add_terms-lin g1 (from 1 (length betas) f) ys (g1.smul (f 0) g)
                (omega (arith, e, length-from 1 (length betas) f)),
            challenge_lem ys c1,
          )
          refl
      where
        same_length : (length betas == length (map {A = G1} some ys)) ≡ true
        same_length = ground (arith, length-map {A = G1} some ys)

    -- A proof that a commitment is the base times `alpha` plus the bases times the `betas` is
    -- accepted, for as many bases as there are `betas`.
    pub verify_multi_exp-prove_multi_exp :
        (alpha : Scalar) (betas : List Scalar) (g : G1) (ys : List G1) (f : ℕ → Scalar)
        → length betas ≡ length ys
        → (prove_multi_exp
              (some alpha)
              betas
              (some (g1.add (g1.smul alpha g) (lin g1 betas ys)))
              (some g)
              (map some ys)
              (supply f)
            >>= λ pf. verify_multi_exp (some g) (map some ys) (some pf))
          ≡ ok true
    verify_multi_exp-prove_multi_exp alpha betas g ys f e =
        rw
          (
            prove_multi_exp-eq alpha betas c1 g ys f e,
            verify_multi_exp-eq g c1 r1 _ (responses field c betas rs) ys zs_length,
          )
          (ap ok ((g1.is_equal_iff _ _).1 combine))
      where
        c1 : G1
        c1 = g1.add (g1.smul alpha g) (lin g1 betas ys)

        rs : List Scalar
        rs = from 1 (length betas) f

        r1 : G1
        r1 = g1.add (g1.smul (f 0) g) (lin g1 rs ys)

        c : Scalar
        c = challenge ys c1 r1

        zs_length : length (responses field c betas rs) ≡ length ys
        zs_length = length-responses field c betas rs (length-from 1 (length betas) f) ∙ e

        combine :
            g1.add
              (g1.smul (field.add (field.mul c alpha) (f 0)) g)
              (lin g1 (responses field c betas rs) ys)
            ≡ g1.add r1 (g1.smul c c1)
        combine =
            ap₂ g1.add (Laws.response g1 c alpha (f 0) g)
              (lin-responses g1 c betas rs ys (length-from 1 (length betas) f) (omega (arith, e)))
            ∙ Laws.add_interchange g1 _ _ _ _
            ∙ ap (g1.add r1) (sym (g1.smul-add c _ _))
