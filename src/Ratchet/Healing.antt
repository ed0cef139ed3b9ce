-- ===== src/Ratchet/Healing.antt =====
-- A refresh that fails after the ratchets have turned does not part the two ends.
use orionlink.Prelude.{ℕ, ◌≡◌, sym, ap, ◌∙◌, true, false, some, Bytes, is_empty, get_elem?}
use orionlink.Ecc.{Bls, Scalar}
use orionlink.Crypto.{Crypto}
use orionlink.Token.{Jwt}
use orionlink.Ratchet.{PayloadJson}
use orionlink.Ratchet.Idp.{IdpRefresh, is_new, handle_broker_request}
use orionlink.Ratchet.Rp.{RpRefresh, decrypt_response}
use orionlink.Ratchet.Agreement.{
  root, world, request, response, keys_of, handle-new, decrypt-new, agreed,
}

module _ ⦃b : Bls⦄ ⦃h : Crypto⦄ ⦃jwt : Jwt⦄ ⦃json : PayloadJson⦄ where
  open b use {g1}

  -- The IdP and the RP have the same root key, the header is the RP's public key of this sequence
  -- number and new to the IdP, the IdP's fresh key is new to the RP, and the refresh token is not
  -- empty. Then the root keys of both ends agree again behind the request and a response with the
  -- IdP's key, whether the IdP validates the refresh token or not, and whatever ciphertext the RP
  -- is given.
  pub handle_broker_request-decrypt_response-root :
      (i : IdpRefresh) (r : RpRefresh) (ks nonce issuer refresh c : Bytes) (now seq : ℕ)
      (sk isk : Scalar)
      → root i.seeded i.rk ks ≡ root r.seeded r.rk ks
      → get_elem? r.rsk seq ≡ some sk
      → is_new i.dh_a (g1.smul sk g1.gen) ≡ true
      → is_new r.dh_b (g1.smul isk g1.gen) ≡ true
      → is_empty refresh ≡ false
      → let i' =
          (handle_broker_request i
            (world ks isk nonce now issuer)
            (request (g1.smul sk g1.gen) seq refresh)).0 in
        let r' = (decrypt_response r ks (response (g1.smul isk g1.gen) seq c)).0 in
        root i'.seeded i'.rk ks ≡ root r'.seeded r'.rk ks
  handle_broker_request-decrypt_response-root i r ks nonce issuer refresh c now seq sk isk same rsk
        new_a new_b full =
      ap (λ x. root x.0.seeded x.0.rk ks)
        (handle-new i ks nonce issuer now (g1.smul sk g1.gen) isk seq refresh full new_a)
      ∙ ap (λ k. k.0)
          (agreed (root i.seeded i.rk ks) sk isk
            ∙ ap (λ rk. keys_of rk sk (g1.smul isk g1.gen)) same)
      ∙ sym (
          ap (λ x. root x.0.seeded x.0.rk ks)
            (decrypt-new r ks (g1.smul isk g1.gen) sk seq c rsk new_b))
