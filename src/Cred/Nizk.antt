-- ===== src/Cred/Nizk.antt =====
-- lib/NIZK.go: Schnorr proofs and proofs of a multi-exponentiation, non-interactive by hashing.
pub mod Complete
pub mod Extract
use orionlink.Prelude.{
  ℕ, suc, ◌+◌, Bool, true, false, not, Option, none, some, List, [], ◌∷◌, ◌++◌, map, length, ◌==◌,
  Bytes, Result, ok, err, panic, ◌>>=◌, ◌>>◌, deref, or_err, fail_if,
}
use orionlink.Ecc.{Bls, Curve, Scalar, G1}
use orionlink.Crypto.{Crypto}
use orionlink.Cred.{Rng, draw}
use orionlink.Cred.Sums.{add_terms, responses}

-- The elements of a Go slice; a nil slice has none.
abbrev pub elements {ℓ} : {A : Type ℓ} → Option (List A) → List A
elements none = []
elements (some xs) = xs

module _ ⦃b : Bls⦄ where
  pub record Proof : Type 0 where
    pub p : Option G1
    pub r : Option G1
    pub z : Option Scalar

  pub record MultiExpProof : Type 0 where
    pub c1 : Option G1
    pub r1 : Option G1
    pub z0 : Option Scalar
    pub zs : Option (List (Option Scalar))

  -- `count` draws from number `i` on.
  unfoldable pub draw_list : ℕ → ℕ → Rng → Result (List Scalar)
  draw_list i ℕ.zero rng = ok []
  draw_list i (suc n) rng = do r ← draw (rng i); rs ← draw_list (i + 1) n rng; ok (r ∷ rs)

  -- `for i := range Ys { hsh.Write(Ys[i].BytesCompressed()) }`
  unfoldable pub compress_all : (C : Curve b.field) → List (Option C.Point) → Result Bytes
  compress_all C [] = ok []
  compress_all C (y ∷ ys) =
      deref y >>= λ y'. compress_all C ys >>= λ rest. ok (C.compress y' ++ rest)

  module _ ⦃h : Crypto⦄ where
    unfoldable pub compute_challenge : G1 → G1 → Scalar
    compute_challenge p r = b.field.set_bytes (h.sha256 (b.g1.compress p ++ b.g1.compress r))

    unfoldable pub prove : Option Scalar → Option G1 → Rng → Result Proof
    prove priv point rng = do
      x ← or_err priv "invalid inputs"
      p ← or_err point "invalid inputs"
      r ← draw (rng 0)
      let announcement = b.g1.smul r b.g1.gen
      let c = compute_challenge p announcement
      ok (record { p = some p; r = some announcement; z = some (b.field.add (b.field.mul c x) r) })

    unfoldable pub verify : Option Proof → Result Bool
    verify proof = do
      pf ← or_err proof "invalid inputs"
      p ← or_err pf.p "invalid inputs"
      r ← or_err pf.r "invalid inputs"
      z ← or_err pf.z "invalid inputs"
      let c = compute_challenge p r
      ok (b.g1.is_equal (b.g1.smul z b.g1.gen) (b.g1.add r (b.g1.smul c p)))

    unfoldable pub compute_multi_exp_challenge : List (Option G1) → G1 → G1 → Result Scalar
    compute_multi_exp_challenge ys p r = do
      bases ← compress_all b.g1 ys
      ok (b.field.set_bytes (h.sha256 (bases ++ (b.g1.compress p ++ b.g1.compress r))))

    unfoldable pub prove_multi_exp :
        Option Scalar
        → List Scalar
        → Option G1
        → Option G1
        → List (Option G1)
        → Rng
        → Result MultiExpProof
    prove_multi_exp alpha betas commitment base ys rng = do
      a ← or_err alpha "invalid inputs to ProveMultiExp"
      c1 ← or_err commitment "invalid inputs to ProveMultiExp"
      g ← or_err base "invalid inputs to ProveMultiExp"
      fail_if (not (length betas == length ys)) "betas and bases length mismatch"
      r0 ← draw (rng 0)
      rs ← draw_list 1 (length betas) rng
      r1 ← add_terms b.g1 (map some rs) ys (b.g1.smul r0 g)
      c ← compute_multi_exp_challenge ys c1 r1
      ok (record {
        c1 = some c1;
        r1 = some r1;
        z0 = some (b.field.add (b.field.mul c a) r0);
        zs = some (map some (responses b.field c betas rs));
      })

    unfoldable pub verify_multi_exp :
        Option G1 → List (Option G1) → Option MultiExpProof → Result Bool
    verify_multi_exp base ys proof = do
      pf ← or_err proof "invalid inputs to VerifyMultiExp"
      c1 ← or_err pf.c1 "invalid inputs to VerifyMultiExp"
      r1 ← or_err pf.r1 "invalid inputs to VerifyMultiExp"
      z0 ← or_err pf.z0 "invalid inputs to VerifyMultiExp"
      g ← or_err base "invalid inputs to VerifyMultiExp"
      fail_if (not (length (elements pf.zs) == length ys)) "proof zs and bases length mismatch"
      c ← compute_multi_exp_challenge ys c1 r1
      left ← add_terms b.g1 (elements pf.zs) ys (b.g1.smul z0 g)
      ok (b.g1.is_equal left (b.g1.add r1 (b.g1.smul c c1)))
