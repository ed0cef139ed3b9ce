-- ===== src/Auid/Stable.antt =====
-- The pseudonym does not depend on the session.
use orionlink.Prelude.{ℕ, ◌≡◌, ◌≢◌, refl, ap, ◌∙◌, some, Bytes, ok, ◌>>=◌, deref}
use orionlink.Ecc.{Bls, Scalar, G1}
use orionlink.Ecc.Laws
use orionlink.Wire.{Codec, point_to_string}
use orionlink.Wire.RoundTrip.{string_to_point-point_to_string}
use orionlink.Cred.{supply}
use orionlink.Cred.PsSig.{randomize_sig}
use orionlink.Auid.{generate_auid, unblind_auid, get_unblind_auid}

module _ ⦃b : Bls⦄ ⦃codec : Codec⦄ where
  open b use {field, g1}

  -- What the IdP blinds with the first point of a credential times `k`, the RP unblinds with `k`:
  -- the user's scalar times the first point, unless `k` is zero.
  pub unblind_auid-generate_auid :
      (k uid : Scalar) (p : G1)
      → k ≢ field.zero
      → unblind_auid (point_to_string g1 (some (generate_auid (g1.smul k p) uid))) (some k)
        ≡ ok (point_to_string g1 (some (g1.smul uid p)))
  unfolding unblind_auid generate_auid
  unblind_auid-generate_auid k uid p k0 =
      rw (string_to_point-point_to_string g1 (some (g1.smul uid (g1.smul k p)))) (
        ap (λ q. ok (point_to_string g1 (some q)))
          (ap (g1.smul (field.inv k)) (Laws.smul_comm g1 uid k p) ∙ Laws.inv-smul g1 k _ k0))

  -- Whatever scalars a session draws to randomize the RP's domain credential, as long as the
  -- first of them is not zero, the RP recovers from the IdP's blinded pseudonym the user's scalar times
  -- the first point of the domain credential, so all sessions of a user at an RP have one
  -- pseudonym.
  pub unblind_auid-randomize_sig :
      (s1 s2 : G1) (uid : Scalar) (f : ℕ → Scalar)
      → f 0 ≢ field.zero
      → (randomize_sig (some (record { sigma1 = some s1; sigma2 = some s2 })) (supply f) >>= λ r.
          deref r.0.sigma1 >>= λ acid.
          unblind_auid (point_to_string g1 (some (generate_auid acid uid))) (some r.1))
        ≡ ok (point_to_string g1 (some (g1.smul uid s1)))
  unfolding randomize_sig
  unblind_auid-randomize_sig s1 s2 uid f k0 = unblind_auid-generate_auid (f 0) uid s1 k0

  -- The Broker's and the RP's unblinding give the same result for every text and every factor that
  -- is there.
  pub get_unblind_auid-unblind_auid :
      (auid : Bytes) (k : Scalar) → get_unblind_auid auid (some k) ≡ unblind_auid auid (some k)
  unfolding get_unblind_auid unblind_auid
  get_unblind_auid-unblind_auid auid k = refl
