-- ===== src/Rp/Claims.antt =====
-- What the IdP tells of a user in its ID token reaches the RP, through the Broker that cannot read
-- it.
use orionlink.Prelude.{
  ℕ, Bool, text, ◌+◌, ◌≤◌, ◌<◌, ◌≡◌, refl, sym, ap, ◌∙◌, false, some, [], ◌∷◌, ◌++◌, Bytes,
  is_empty, length, length-append, ok, ◌>>=◌, arith,
}
use orionlink.Ecc.{Bls}
use orionlink.Crypto.{Crypto}
use orionlink.Wire.{Codec}
use orionlink.Wire.RoundTrip.{encode-ne-nil}
use orionlink.Session.{aes_encrypt_string, aes_decrypt_string}
use orionlink.Session.Agreement.{aes_gcm_encrypt-eq, aes_decrypt_string-aes_encrypt_string}
use orionlink.Token.{
  Claims, Jwt, generate_id_token, generate_access_token, generate_refresh_token, registered_for,
}
use orionlink.Jwks.{PublicKey, MapClaims, UrlCodec, JwtParser, handle_jwks, verify_id_token}
use orionlink.Jwks.Published.{Signer, verify_id_token-sign}
use orionlink.Idp.{generate_tokens}
use orionlink.Idp.Store.{AuthorizationCode}
use orionlink.Broker.Store.{Tokens}
use orionlink.Broker.Resign.{resign_tokens_with_broker_key}
use orionlink.Broker.Resigned.{
  Publishable, id_claims, access_claims, resign_id-signed, resign_access-signed,
}
use orionlink.Rp.Callback.{CallbackWorld, read_claim, read_user}

-- A signer that always signs, with a token that is not empty.
abbrev pub Works : Jwt → Type 0
Works jwt = (c : Claims) → (t : Bytes) × (jwt.sign c ≡ some t) × (is_empty t ≡ false)

module _ ⦃h : Crypto⦄ ⦃codec : Codec⦄ where
  -- The encryption of a text is a text that is not empty and decrypts to it.
  pub Sealed : Bytes → Bytes → Bytes → Type 0
  Sealed ks nonce plain =
      (enc : Bytes) × (aes_encrypt_string ks plain (some nonce) ≡ ok enc)
      × (is_empty enc ≡ false)
      × (read_claim ks (some enc) ≡ ok plain)

  pub aes_encrypt_string-Sealed :
      (ks plain nonce : Bytes)
      → length ks ≡ 32
      → length nonce ≡ h.nonce_size
      → 0 < length nonce
      → Sealed ks nonce plain
  unfolding Sealed aes_encrypt_string
  aes_encrypt_string-Sealed ks plain nonce k n long =
      let (c, s, e) =
        encode-ne-nil (nonce ++ h.seal ks nonce plain [])
          (omega (arith, length-append nonce (h.seal ks nonce plain []))) in
      let made : aes_encrypt_string ks plain (some nonce) ≡ ok (c ∷ s) =
        rw (aes_gcm_encrypt-eq ks plain [] nonce k) (ap ok e) in
      (
        c ∷ s,
        made,
        refl,
        ap (λ r. r >>= aes_decrypt_string ks) (sym made)
            ∙ aes_decrypt_string-aes_encrypt_string ks plain nonce k n,
      )

  module _ ⦃url : UrlCodec⦄ ⦃parser : JwtParser⦄ where
    -- A verified map with encrypted claims gives the user that they encrypt.
    decrypted :
        (w : CallbackWorld) (ks token uid_rp access_token sub name email e1 e2 e3 : Bytes)
        (m : MapClaims)
        → is_empty token ≡ false
        → verify_id_token w.now w.jwks token ≡ ok m
        → m.sub ≡ some e1
        → m.name ≡ some e2
        → m.email ≡ some e3
        → read_claim ks (some e1) ≡ ok sub
        → read_claim ks (some e2) ≡ ok name
        → read_claim ks (some e3) ≡ ok email
        → (token_type : Bytes)
        → read_user w ks (record {
          uid_rp = uid_rp;
          id_token = token;
          access_token = access_token;
          token_type = token_type;
        })
          ≡ ok (record {
            uid = uid_rp;
            username = name;
            email = email;
            sub = sub;
            access_token = access_token;
          })
    unfolding read_user
    decrypted w ks token uid_rp access_token sub name email e1 e2 e3 m full v m1 m2 m3 d1 d2 d3
          tt' =
        rw (full, v, m1, d1, m2, d2, m3, d3) refl

    module _ (idp own : Jwt) (ik bk : PublicKey) (idp_signs : Signer idp ik)
        (own_signs : Signer own bk) (idp_key : Publishable ik) (own_key : Publishable bk)
        (idp_works : Works idp) (own_works : Works own) where
      -- Let an IdP and a Broker sign tokens that are not empty with the keys that they publish. For
      -- a code's data and a K_S of 32 bytes, with nonces of the right size, which is not 0, the IdP
      -- makes tokens; the Broker signs them anew within five minutes, with its keys fetched; and
      -- within five minutes of that the RP, with the Broker's keys fetched, reads from the Broker's
      -- answer the user's name, address and id as the IdP has them.
      pub read_user-generate_tokens :
          ⦃b : Bls⦄
          → (iss issuer : Bytes) (t0 t1 t2 : ℕ) (ac : AuthorizationCode) (ks : Bytes)
            (n : ℕ → Bytes) (writable : Bool) (w : CallbackWorld)
          → length ks ≡ 32
          → ((i : ℕ) → length (n i) ≡ h.nonce_size)
          → 0 < h.nonce_size
          → t0 ≤ t1
          → t1 < t0 + 300
          → t1 ≤ t2
          → t2 < t1 + 300
          → w.now ≡ t2
          → w.jwks ≡ handle_jwks (some bk)
          → (it at rt : Bytes) × (generate_tokens ⦃jwt = idp⦄ iss
                (record { now = t0; nonce = λ i. some (n i); writable = writable })
                ac
                ks
              ≡ ok (it, at, rt))
            × ((tokens : Tokens) × (resign_tokens_with_broker_key ⦃jwt = own⦄ issuer t1
                    (handle_jwks (some ik))
                    (handle_jwks (some ik))
                    (record {
                      access_token = at;
                      id_token = it;
                      token_type = text "Bearer";
                      refresh_token = rt;
                    })
                  ≡ ok tokens)
                × ((uid_rp : Bytes)
                    → read_user w ks (record {
                      uid_rp = uid_rp;
                      id_token = tokens.id_token;
                      access_token = tokens.access_token;
                      token_type = tokens.token_type;
                    })
                      ≡ ok (record {
                        uid = uid_rp;
                        username = ac.username;
                        email = ac.email;
                        sub = ac.uid;
                        access_token = tokens.access_token;
                      })))
      unfolding Sealed generate_tokens generate_id_token generate_access_token
          generate_refresh_token resign_tokens_with_broker_key
      read_user-generate_tokens iss issuer t0 t1 t2 ac ks n writable w k sizes long l01 u01 l12 u12
            at_t2 fetched =
          let seal = λ (plain : Bytes) (i : ℕ).
            aes_encrypt_string-Sealed ks plain (n i) k (sizes i) (omega (arith, sizes i, long)) in
          let (e1, s1, f1, d1) = seal ac.uid 0 in
          let (e2, s2, f2, d2) = seal ac.username 1 in
          let (e3, s3, f3, d3) = seal ac.email 2 in
          let (e4, s4, f4, d4) = seal ac.scope 3 in
          let (it, ie, if1) = idp_works (id_claims iss t0 e1 e2 e3 ac.acid) in
          let (at, ae, af1) = idp_works (access_claims iss t0 e1 e4 ac.acid) in
          let (rt, re, rf1) = idp_works (record {
            name = [];
            email = [];
            scope = ac.scope;
            registered = registered_for iss ac.uid ac.acid t0 7200;
          }) in
          let (it', ie', if2) = own_works (id_claims issuer t1 e1 e2 e3 ac.acid) in
          let (at', ae', af2) = own_works (access_claims issuer t1 e1 e4 ac.acid) in
          let (m, v, (rs, rn, rm, rc, ra)) =
            verify_id_token-sign own bk (id_claims issuer t1 e1 e2 e3 ac.acid) it' t2 own_signs
              own_key.0 own_key.1 own_key.2 ie' l12 u12 in
          (
            it,
            at,
            rt,
            rw (s1, s2, s3, s4, ie, ae, re) refl,
            (
              record {
                access_token = at';
                id_token = it';
                token_type = text "Bearer";
                refresh_token = rt;
              },
              rw
                  (
                    af1,
                    resign_access-signed ⦃own = own⦄ idp ik idp_signs idp_key iss issuer e1 ac.acid
                        at t0 t1 l01 f1 e4 ae (omega arith) f4,
                    ae',
                    if1,
                    resign_id-signed ⦃own = own⦄ idp ik idp_signs idp_key iss issuer e1 ac.acid it
                        t0 t1 l01 f1 e2 e3 ie u01 f2 f3,
                    ie',
                  )
                  refl,
              λ uid_rp.
                  decrypted w ks it' uid_rp at' ac.uid ac.username ac.email e1 e2 e3 m if2
                    (rw (at_t2, fetched) v) (rs f1) (rn f2) (rm f3) d1 d2 d3 (text "Bearer"),
            ),
          )
