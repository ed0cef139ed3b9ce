-- ===== src/Broker/Endpoints.antt =====
-- What the Broker's endpoints achieve together: the tokens of a redeemed code are the ones that a
-- refresh finds, and a login's session holds a credential that is as good as the RP's.
use orionlink.Prelude.{
  ℕ, ◌≤◌, ◌≡◌, ◌≢◌, ◌↔◌, refl, true, false, none, some, List, [], length, Bytes, bytes_eq_refl,
  is_empty, ltb, ok, ◌>>=◌, Dict, lookup, erase, rename_err, lookup-insert_self, arith,
}
use orionlink.Ecc.{Bls, Scalar, G1}
use orionlink.Cred.{supply, PsSignMsg}
use orionlink.Cred.PsSig.{key_of, ps_verify, randomize_sig, verify_randomized_sig}
use orionlink.Cred.PsSig.Correct.{verify_randomized-randomize_iff}
use orionlink.Broker.Store.{User, AuthorizationCode, get_code, taken, save_user, get_user}
use orionlink.Broker.{
  Broker, RpIdentity, with_user, with_codes, bind, refresh_token_of, generate_session_data,
  handle_token_from_broker,
}

module _ ⦃b : Bls⦄ where
  open b use {field, g1}

  pub got :
      (codes : Dict AuthorizationCode) (now : ℕ) (code : Bytes) (ac : AuthorizationCode)
      → lookup code codes ≡ some ac
      → now ≤ ac.expires_at
      → ac.used ≡ false
      → get_code codes now code ≡ (erase code codes, ok (taken ac))
  unfolding get_code
  got codes now code ac found early fresh = rw (found, in_time, fresh) refl
    where
      in_time : ltb ac.expires_at now ≡ false
      in_time = ground arith

  bound :
      (s : Broker) (code : Bytes) (ac : AuthorizationCode) (rp : RpIdentity)
      → is_empty ac.user_id ≡ false
      → is_empty ac.tokens.refresh_token ≡ false
      → ((bind s code ac (some rp)).1
          ≡ ok (record {
            uid_rp = ac.user_id;
            id_token = ac.tokens.id_token;
            access_token = ac.tokens.access_token;
            token_type = ac.tokens.token_type;
          }))
        × ((rp' : RpIdentity) × (refresh_token_of
                (bind s code ac (some rp)).0.rp_identity
                ac.rpid
                ac.user_id
              ≡ ok (rp', ac.tokens.refresh_token)))
  unfolding save_user get_user
  bound s code ac rp named full = (
    refl,
    (
      with_user rp user,
      rw
          (
            lookup-insert_self ac.rpid (with_user rp user) s.rp_identity,
            named,
            lookup-insert_self ac.user_id user (elim rp.user_store [ none ↦ [] | some us ↦ us ]),
            full,
          )
          refl,
    ),
  )
    where
      user : User
      user = record { uid = ac.user_id; token = some ac.tokens }

  -- For a stored code that is not expired and not used, of a registered RP, for a user with a
  -- non-empty name and a non-empty refresh token, the Broker answers with the code's tokens, and in
  -- the state that it leaves a refresh of that user at that RP finds the code's refresh token.
  pub handle_token_from_broker-refresh_token_of :
      (s : Broker) (now : ℕ) (code : Bytes) (ac : AuthorizationCode) (rp : RpIdentity)
      → lookup code s.codes ≡ some ac
      → now ≤ ac.expires_at
      → ac.used ≡ false
      → lookup ac.rpid s.rp_identity ≡ some rp
      → is_empty ac.user_id ≡ false
      → is_empty ac.tokens.refresh_token ≡ false
      → let after = handle_token_from_broker s now code in
        (after.1
          ≡ ok (record {
            uid_rp = ac.user_id;
            id_token = ac.tokens.id_token;
            access_token = ac.tokens.access_token;
            token_type = ac.tokens.token_type;
          }))
        × ((rp' : RpIdentity) × (refresh_token_of after.0.rp_identity ac.rpid ac.user_id
              ≡ ok (rp', ac.tokens.refresh_token)))
  unfolding handle_token_from_broker
  handle_token_from_broker-refresh_token_of s now code ac rp found early fresh known named full =
      rw (got s.codes now code ac found early fresh, known)
        (bound (with_codes s (erase code s.codes)) code (taken ac) rp named full)

  session :
      (rp : RpIdentity) (tid state : Bytes) (s : PsSignMsg) (f : ℕ → Scalar)
      → rp.domain_cred.sigma ≡ some s
      → generate_session_data rp tid state rp.domain_cred.domain (supply f) ≡ (
          rename_err "randomize sig failed" (randomize_sig (some s) (supply f)) >>= λ r.
          ok (record { t = r.2; k = r.1; rand_sig = r.0; tid = tid; state = state }))
  unfolding generate_session_data
  session rp tid state s f cred = rw (bytes_eq_refl rp.domain_cred.domain, cred) refl

  -- For the RP's own address as the redirect address, a login's session holds a credential and a
  -- factor that verify under keys made from secrets exactly when the RP's domain credential does,
  -- provided that the scalar drawn first is not zero.
  pub generate_session_data-verify_iff :
      (x : Scalar) (ys attrs : List Scalar) (s1 s2 : G1) (f : ℕ → Scalar) (rp : RpIdentity)
      (tid state : Bytes)
      → rp.domain_cred.sigma ≡ some (record { sigma1 = some s1; sigma2 = some s2 })
      → length attrs ≤ length ys
      → f 0 ≢ field.zero
      → ((generate_session_data rp tid state rp.domain_cred.domain (supply f) >>= λ d.
            verify_randomized_sig (some d.rand_sig) d.t attrs (key_of x ys).public_key)
          ≡ ok true)
        ↔ (ps_verify rp.domain_cred.sigma attrs (some (key_of x ys).public_key) ≡ ok true)
  unfolding randomize_sig
  generate_session_data-verify_iff x ys attrs s1 s2 f rp tid state cred h k0 =
      rw (session rp tid state _ f cred, cred)
        (verify_randomized-randomize_iff x ys attrs s1 s2 f h k0)
