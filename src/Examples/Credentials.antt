-- ===== src/Examples/Credentials.antt =====
-- The credentials' theorems at concrete inputs.
use orionlink.Prelude.{arith, ◌≡◌, ◌≢◌, ◌↔◌, refl, true, some, none, [], ◌∷◌, ok, ◌>>=◌, map}
use orionlink.Ecc.Toy.{n0, n1, n2, toy_bls, toy_field, toy_curve}
use orionlink.Crypto.{Crypto}
use orionlink.Crypto.Toy.{fit, toy_crypto}
use orionlink.Wire.Toy.{toy_codec}
use orionlink.Cred.{supply, PsSignMsg}
use orionlink.Cred.PsSig.{
  key_of, points, ps_verify, randomize_sig, verify_randomized_sig, to_json, from_json,
}
use orionlink.Cred.PsSig.Correct.{ps_verify_iff, verify_randomized-randomize_iff, exponent}
use orionlink.Cred.PsSig.Wire.{from_json-to_json, both}
use orionlink.Cred.Sums.{inner, lin, add_terms}
use orionlink.Cred.Nizk.{
  compute_multi_exp_challenge, compress_all, prove_multi_exp, verify_multi_exp,
}
use orionlink.Cred.Nizk.Complete.{whole, verify_multi_exp-prove_multi_exp}
use orionlink.Cred.Nizk.Extract.{quotient, quotients, extract_exponents}
use orionlink.Cred.Blind.{prepare_blind_sign, blind_sign, unblind}
use orionlink.Cred.Blind.Correct.{blind_issuance}
use orionlink.Cred.Present.{anoy_cred_present, verify_anoy_cred_present}
use orionlink.Cred.Present.Complete.{verify_anoy_cred_present-anoy_cred_present}
use orionlink.Examples.{draws, twos}

one_ne_zero : n1 ≢ n0
one_ne_zero h = cc h

blind_issuance_example :
    (prepare_blind_sign (n2 ∷ []) (some (points toy_curve (n1 ∷ []))) (supply draws)
      >>= λ (proof, d).
          blind_sign
            (some (key_of n1 (n2 ∷ n1 ∷ [])).secret_key)
            (some (key_of n1 (n2 ∷ n1 ∷ [])).public_key)
            (some proof)
            (n1 ∷ [])
            (supply twos)
          >>= λ s. unblind (some s) (some d) >>= λ s'.
              ps_verify (some s') (n1 ∷ n2 ∷ []) (some (key_of n1 (n2 ∷ n1 ∷ [])).public_key))
    ≡ ok true
blind_issuance_example =
    blind_issuance n1 (n2 ∷ []) (n1 ∷ []) (n1 ∷ []) (n2 ∷ []) draws twos refl refl

-- A signature on the attribute 1 under the secrets 1 and 2.
abbrev signature : PsSignMsg
signature = record { sigma1 = some n1; sigma2 = some n0 }

ps_verify_iff_example :
    (ps_verify (some signature) (n1 ∷ []) (some (key_of n1 (n2 ∷ [])).public_key) ≡ ok true)
    ↔ (n0 ≡ toy_curve.smul (exponent n1 (n2 ∷ []) (n1 ∷ [])) n1)
ps_verify_iff_example = ps_verify_iff n1 (n2 ∷ []) (n1 ∷ []) n1 n0 (omega arith)

verify_randomized-randomize_iff_example :
    ((randomize_sig (some signature) (supply draws) >>= λ r.
    verify_randomized_sig (some r.0) r.2 (n1 ∷ []) (key_of n1 (n2 ∷ [])).public_key)
      ≡ ok true)
    ↔ (ps_verify (some signature) (n1 ∷ []) (some (key_of n1 (n2 ∷ [])).public_key) ≡ ok true)
verify_randomized-randomize_iff_example =
    verify_randomized-randomize_iff n1 (n2 ∷ []) (n1 ∷ []) n1 n0 draws (omega arith) one_ne_zero

from_json-to_json_example :
    from_json (to_json (some (record { sigma1 = some n1; sigma2 = some n2 })))
    ≡ ok (both (some n1) (some n2))
from_json-to_json_example = from_json-to_json (some n1) (some n2)

verify_multi_exp-prove_multi_exp_example :
    (prove_multi_exp
        (some n2)
        (n1 ∷ n2 ∷ [])
        (some n0)
        (some n1)
        (map some (n2 ∷ n1 ∷ []))
        (supply draws)
      >>= λ pf. verify_multi_exp (some n1) (map some (n2 ∷ n1 ∷ [])) (some pf))
    ≡ ok true
unfolding lin
verify_multi_exp-prove_multi_exp_example =
    verify_multi_exp-prove_multi_exp n2 (n1 ∷ n2 ∷ []) n1 (n2 ∷ n1 ∷ []) draws refl

verify_anoy_cred_present-anoy_cred_present_example :
    (randomize_sig (some signature) (supply draws) >>= λ r.
    anoy_cred_present r.0 r.2
      (n1 ∷ [])
      (n2 ∷ [])
      (key_of n1 (n2 ∷ [])).public_key
      none
      (supply twos)
    >>= λ p. verify_anoy_cred_present (some p) (some (key_of n1 (n2 ∷ [])).public_key))
    ≡ ok true
unfolding inner
verify_anoy_cred_present-anoy_cred_present_example =
    verify_anoy_cred_present-anoy_cred_present n1 (n2 ∷ []) (n1 ∷ []) (n2 ∷ []) n1 n0 none draws
      twos refl refl ((ps_verify_iff n1 (n2 ∷ []) (n1 ∷ []) n1 n0 (omega arith)).1 refl)

-- The other hash of the two runs: it gives zero for everything.
abbrev silent_crypto : Crypto
silent_crypto = record {
  sha256 = λ xs. fit 32 [];
  hmac_sha256 = toy_crypto.hmac_sha256;
  hkdf_extract = toy_crypto.hkdf_extract;
  hkdf_expand = toy_crypto.hkdf_expand;
  length-hkdf_expand = toy_crypto.length-hkdf_expand;
  length-hmac = toy_crypto.length-hmac;
  nonce_size = toy_crypto.nonce_size;
  seal = toy_crypto.seal;
  unseal = toy_crypto.unseal;
  unseal-seal = toy_crypto.unseal-seal;
}

first_accepted :
    verify_multi_exp ⦃h = toy_crypto⦄
      (some n1)
      (map some (n1 ∷ []))
      (some (whole n2 n0 n1 (n1 ∷ [])))
    ≡ ok true
unfolding verify_multi_exp compute_multi_exp_challenge compress_all add_terms
first_accepted = refl

second_accepted :
    verify_multi_exp ⦃h = silent_crypto⦄
      (some n1)
      (map some (n1 ∷ []))
      (some (whole n2 n0 n0 (n0 ∷ [])))
    ≡ ok true
unfolding verify_multi_exp compute_multi_exp_challenge compress_all add_terms
second_accepted = refl

-- With the challenges one and zero, the exponents are one and one.
extract_exponents_example :
    n2
    ≡ toy_curve.add
        (toy_curve.smul (quotient toy_field n1 n1 n0) n1)
        (lin toy_curve (quotients toy_field n1 (n1 ∷ []) (n0 ∷ [])) (n1 ∷ []))
extract_exponents_example =
    extract_exponents toy_crypto silent_crypto n1 n2 n0 n1 n0 (n1 ∷ []) (n0 ∷ []) (n1 ∷ []) refl
      refl first_accepted second_accepted one_ne_zero
