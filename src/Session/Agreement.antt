-- ===== src/Session/Agreement.antt =====
-- The two sides agree on K_S, and what one encrypts under it the other reads.
use orionlink.Prelude.{
  ◌≡◌, refl, sym, ap, ◌∙◌, true, false, some, [], ◌++◌, Bytes, length, take, drop, take-append,
  drop-append, length-append, ltb, ◌==◌, arith, bytes_eq_refl, ok, ◌>>=◌, Dict, lookup,
}
use orionlink.Ecc.{Bls, Scalar, G1}
use orionlink.Ecc.Laws
use orionlink.Crypto.{Crypto}
use orionlink.Wire.{Codec}
use orionlink.Session.{
  EphemeralKey, dh, x3_key_exchange_rp, x3_key_exchange_idp, derive_session_key, aes_gcm_encrypt,
  aes_gcm_decrypt, aes_encrypt_string, aes_decrypt_string, generate_emp_key, new_session,
  get_session_key,
}

module _ ⦃h : Crypto⦄ where
  pub length-derive_session_key :
      (dhs : Bytes × Bytes × Bytes) → length (derive_session_key dhs) ≡ 32
  unfolding derive_session_key
  length-derive_session_key (dh1, dh2, dh3) = h.length-hkdf_expand _ _ 32

  pub aes_gcm_encrypt-eq :
      (key plaintext aad nonce : Bytes)
      → length key ≡ 32
      → aes_gcm_encrypt key plaintext aad (some nonce)
        ≡ ok (nonce ++ h.seal key nonce plaintext aad)
  unfolding aes_gcm_encrypt
  aes_gcm_encrypt-eq key plaintext aad nonce k = ground arith

  pub aes_gcm_decrypt-eq :
      (key plaintext aad nonce : Bytes)
      → length key ≡ 32
      → length nonce ≡ h.nonce_size
      → aes_gcm_decrypt key (nonce ++ h.seal key nonce plaintext aad) aad ≡ ok plaintext
  unfolding aes_gcm_decrypt
  aes_gcm_decrypt-eq key plaintext aad nonce k n =
      rw (key_ok, long_enough, taken, dropped, h.unseal-seal key nonce plaintext aad) refl
    where
      sealed : Bytes
      sealed = h.seal key nonce plaintext aad

      key_ok : (length key == 32) ≡ true
      key_ok = ground arith

      long_enough : ltb (length (nonce ++ sealed)) h.nonce_size ≡ false
      long_enough = ground (arith, length-append nonce sealed)

      taken : take h.nonce_size (nonce ++ sealed) ≡ nonce
      taken = ap (λ m. take m (nonce ++ sealed)) (sym n) ∙ take-append nonce sealed

      dropped : drop h.nonce_size (nonce ++ sealed) ≡ sealed
      dropped = ap (λ m. drop m (nonce ++ sealed)) (sym n) ∙ drop-append nonce sealed

  -- A text encrypted under a 32-byte key with a nonce of the right size decrypts to itself.
  pub aes_decrypt_string-aes_encrypt_string :
      ⦃codec : Codec⦄
      → (key plaintext nonce : Bytes) → length key ≡ 32
      → length nonce ≡ h.nonce_size
      → (aes_encrypt_string key plaintext (some nonce) >>= aes_decrypt_string key) ≡ ok plaintext
  unfolding aes_encrypt_string aes_decrypt_string
  aes_decrypt_string-aes_encrypt_string ⦃codec⦄ key plaintext nonce k n =
      rw
        (
          aes_gcm_encrypt-eq key plaintext [] nonce k,
          codec.decode-encode,
          aes_gcm_decrypt-eq key plaintext [] nonce k n,
        )
        refl

module _ ⦃b : Bls⦄ where
  open b use {g1}

  abbrev pub public_key : Scalar → G1
  public_key sk = g1.smul sk g1.gen

  -- The three shared points of honest keys, as the RP computes them.
  abbrev pub shared : Scalar → Scalar → Scalar → Scalar → Bytes × Bytes × Bytes
  shared csk emp isk esk = (
    g1.compress (g1.smul csk (public_key esk)),
    g1.compress (g1.smul emp (public_key isk)),
    g1.compress (g1.smul emp (public_key esk)),
  )

  -- On key pairs that are multiples of the generator the RP's and the IdP's exchanges give the same
  -- three points: identity and ephemeral secrets `csk` and `emp` of the client, `isk` and `esk` of
  -- the IdP.
  pub x3_key_exchange_agree :
      (csk emp isk esk : Scalar)
      → x3_key_exchange_rp (some csk) (some emp) (some (public_key isk)) (some (public_key esk))
        ≡ x3_key_exchange_idp (some isk) (some esk) (some (public_key csk)) (some (public_key emp))
  unfolding x3_key_exchange_rp x3_key_exchange_idp dh
  x3_key_exchange_agree csk emp isk esk =
      rw
        (
          Laws.smul_comm g1 csk esk g1.gen,
          Laws.smul_comm g1 emp isk g1.gen,
          Laws.smul_comm g1 emp esk g1.gen,
        )
        refl

  module _ ⦃h : Crypto⦄ where
    pub session_key : Scalar → Scalar → Scalar → Scalar → Bytes
    session_key csk emp isk esk = derive_session_key (shared csk emp isk esk)

    -- The login's key agreement: against an IdP with an honest identity key and an ephemeral key in
    -- its pool, the RP's session succeeds, and from the RP's public values and its confirmation the
    -- IdP derives the same key.
    pub session_agreement :
        (csk emp isk esk : Scalar) (nonce kid : Bytes) (pool : Dict EphemeralKey)
        → length nonce ≡ h.nonce_size
        → lookup kid pool ≡ some (record { id = kid; sk = some esk; pk = some (public_key esk) })
        → let ks = session_key csk emp isk esk in
          (msg : Bytes) × (new_session
              (some csk)
              (some (public_key csk))
              (some (public_key isk))
              (some (public_key esk))
              (some emp)
              (some nonce)
            ≡ ok (ks, public_key emp, msg))
          × (get_session_key pool
                (record { sk = some isk; pk = some (public_key isk) })
                (record {
                  client_pk = some (public_key csk);
                  client_emp_pk = some (public_key emp);
                  idp_emp_key_id = kid;
                  msg = msg;
                })
              ≡ ok ks)
    unfolding new_session get_session_key generate_emp_key session_key
    session_agreement csk emp isk esk nonce kid pool n found = (
      nonce ++ h.seal ks nonce confirmed aad,
      rw (exchanged, aes_gcm_encrypt-eq ks confirmed aad nonce length-ks) refl,
      rw
          (
            found,
            agreed,
            aes_gcm_decrypt-eq ks confirmed aad nonce length-ks n,
            bytes_eq_refl confirmed,
          )
          refl,
    )
      where
        ks : Bytes
        ks = derive_session_key (shared csk emp isk esk)

        length-ks : length ks ≡ 32
        length-ks = length-derive_session_key (shared csk emp isk esk)

        confirmed : Bytes
        confirmed = g1.compress (public_key emp) ++ g1.compress (public_key esk)

        aad : Bytes
        aad = g1.compress (public_key csk) ++ g1.compress (public_key isk)

        exchanged :
            x3_key_exchange_rp (some csk) (some emp) (some (public_key isk)) (some (public_key esk))
            ≡ ok (shared csk emp isk esk)
        exchanged = unfold x3_key_exchange_rp dh in refl

        agreed :
            x3_key_exchange_idp
              (some isk)
              (some esk)
              (some (public_key csk))
              (some (public_key emp))
            ≡ ok (shared csk emp isk esk)
        agreed = sym (x3_key_exchange_agree csk emp isk esk) ∙ exchanged
