-- ===== src/Ratchet/Agreement.antt =====
-- The two ends of the refresh ratchet stay together.
use orionlink.Prelude.{
  ℕ, ◌<◌, ◌≡◌, refl, sym, ap, ◌∙◌, Bool, true, false, some, [], ◌∷◌, ◌++◌, Bytes, is_empty, ok,
  get_elem?, get_elem?-lt, length, leb, if◌then◌else◌, arith,
}
use orionlink.Ecc.{Bls, Scalar, G1}
use orionlink.Ecc.Laws
use orionlink.Crypto.{Crypto}
use orionlink.Wire.{bytes_to_point}
use orionlink.Session.{generate_emp_key, dh}
use orionlink.Session.Agreement.{aes_gcm_encrypt-eq, aes_gcm_decrypt-eq}
use orionlink.Token.{Jwt, Registered, validate_refresh_token, generate_access_token}
use orionlink.Protocol.{RefreshTokenFromBrokerRequest, RefreshTokenToRpResponse}
use orionlink.Ratchet.{PayloadJson, refresh_aad, kdf_rk, kdf_ck}
use orionlink.Ratchet.Idp.{
  IdpRefresh, World, is_new, seed, turn, first, finish, respond, handle_broker_request,
}
use orionlink.Ratchet.Rp.{
  RpRefresh, turn_rp, seed_rp, with_keys, finish_rp, open_response, decrypt_response,
}

module _ ⦃b : Bls⦄ ⦃h : Crypto⦄ ⦃jwt : Jwt⦄ ⦃json : PayloadJson⦄ where
  open b use {field, g1}

  not_empty : (p : G1) → is_empty (g1.compress p) ≡ false
  not_empty p = go (g1.compress p) (omega (arith, g1.length-compress p, g1.size-long))
    where
      go : (bytes : Bytes) → 0 < length bytes → is_empty bytes ≡ false
      go [] l = absurd (omega arith)
      go (_ ∷ _) l = refl

  -- The root key that an end has, or takes from the persisted K_S on its first use.
  abbrev pub root : Bool → Bytes → Bytes → Bytes
  root seeded rk ks = if seeded then rk else ks

  -- The IdP's state behind a request with a new header.
  abbrev pub turned : Bytes → Bytes → G1 → Scalar → IdpRefresh
  turned rk ck pk isk = record {
    rk = rk;
    ck = ck;
    seeded = true;
    dh_a = some pk;
    isk = isk;
    ipk = g1.smul isk g1.gen;
  }

  abbrev pub keys_of : Bytes → Scalar → G1 → Bytes × Bytes
  keys_of rk sk pk = kdf_rk rk (g1.compress (g1.smul sk pk))

  abbrev pub request : G1 → ℕ → Bytes → RefreshTokenFromBrokerRequest
  request pk seq token = record { hdr = some (g1.compress pk); seq = seq; refresh_token = token }

  abbrev pub response : G1 → ℕ → Bytes → RefreshTokenToRpResponse
  response pk seq c = record { hdr = some (g1.compress pk); seq = seq; c = some c }

  abbrev pub world : Bytes → Scalar → Bytes → ℕ → Bytes → World
  world ks isk nonce now issuer = record {
    ks = ks;
    drawn = some isk;
    nonce = some nonce;
    now = now;
    issuer = issuer;
  }

  turn-new :
      (i : IdpRefresh) (pk : G1) (isk : Scalar) (ks : Bytes)
      → is_new i.dh_a pk ≡ true
      → let keys = keys_of (root i.seeded i.rk ks) isk pk in
        turn (seed ks i) pk (some isk) ≡ ok (turned keys.0 keys.1 pk isk)
  unfolding turn generate_emp_key dh
  turn-new i pk isk ks new = rw new refl

  pub handle-new :
      (i : IdpRefresh) (ks nonce issuer : Bytes) (now : ℕ) (pk : G1) (isk : Scalar) (seq : ℕ)
      (token : Bytes)
      → is_empty token ≡ false
      → is_new i.dh_a pk ≡ true
      → let w = world ks isk nonce now issuer in
        let keys = keys_of (root i.seeded i.rk ks) isk pk in
        let after = turned keys.0 (kdf_ck keys.1).0 pk isk in
        handle_broker_request i w (request pk seq token)
        ≡ (after, respond after (kdf_ck keys.1).1 w (request pk seq token))
  unfolding handle_broker_request bytes_to_point
  handle-new i ks nonce issuer now pk isk seq token full new =
      rw (not_empty pk, full, g1.set_bytes-compress pk)
        (ap (finish (seed ks i) pk (world ks isk nonce now issuer) (request pk seq token))
          (turn-new i pk isk ks new))

  turn_rp-new :
      (r : RpRefresh) (ks : Bytes) (pk : G1) (sk : Scalar) (seq : ℕ)
      → get_elem? r.rsk seq ≡ some sk
      → is_new r.dh_b pk ≡ true
      → let keys = keys_of (root r.seeded r.rk ks) sk pk in
        turn_rp (seed_rp ks r) seq pk ≡ ok (with_keys (seed_rp ks r) keys.0 keys.1 (some pk))
  unfolding turn_rp dh
  turn_rp-new r ks pk sk seq found new = rw (new, found) refl

  pub decrypt-new :
      (r : RpRefresh) (ks : Bytes) (pk : G1) (sk : Scalar) (seq : ℕ) (c : Bytes)
      → get_elem? r.rsk seq ≡ some sk
      → is_new r.dh_b pk ≡ true
      → let keys = keys_of (root r.seeded r.rk ks) sk pk in
        let after = with_keys (seed_rp ks r) keys.0 (kdf_ck keys.1).0 (some pk) in
        decrypt_response r ks (response pk seq c)
        ≡ (after, open_response after (kdf_ck keys.1).1 (response pk seq c))
  unfolding decrypt_response bytes_to_point
  decrypt-new r ks pk sk seq c found new =
      rw (in_range, g1.set_bytes-compress pk)
        (ap (finish_rp (seed_rp ks r) pk (response pk seq c))
          (turn_rp-new r ks pk sk seq found new))
    where
      in_range : leb (length r.rsk) seq ≡ false
      in_range = ground (arith, get_elem?-lt r.rsk seq found)

  length-mk : (ck : Bytes) → length (kdf_ck ck).1 ≡ 32
  unfolding kdf_ck
  length-mk ck = h.length-hmac _ _

  pub agreed :
      (rk : Bytes) (sk isk : Scalar)
      → keys_of rk isk (g1.smul sk g1.gen) ≡ keys_of rk sk (g1.smul isk g1.gen)
  agreed rk sk isk = ap (λ p. kdf_rk rk (g1.compress p)) (Laws.smul_comm g1 isk sk g1.gen)

  -- One refresh, end to end. The IdP and the RP have the same root key, the header is the RP's
  -- public key of this sequence number and new to the IdP, the IdP's fresh key is new to the RP,
  -- the refresh token validates and an access token is signed for it. Then the IdP answers, the RP
  -- decrypts the answer to that access token, and both ends have the same root and chain keys
  -- again.
  pub decrypt_response-handle_broker_request :
      (i : IdpRefresh) (r : RpRefresh) (ks nonce issuer : Bytes) (now seq : ℕ) (sk isk : Scalar)
      (refresh token scope : Bytes) (reg : Registered)
      → root i.seeded i.rk ks ≡ root r.seeded r.rk ks
      → get_elem? r.rsk seq ≡ some sk
      → get_elem? r.rpk seq ≡ some (g1.smul sk g1.gen)
      → is_new i.dh_a (g1.smul sk g1.gen) ≡ true
      → is_new r.dh_b (g1.smul isk g1.gen) ≡ true
      → length nonce ≡ h.nonce_size
      → is_empty refresh ≡ false
      → validate_refresh_token now refresh ≡ ok (scope, reg)
      → generate_access_token issuer now reg.subject scope (first reg.audience) ≡ ok token
      → is_empty token ≡ false
      → let w = world ks isk nonce now issuer in
        let i' = handle_broker_request i w (request (g1.smul sk g1.gen) seq refresh) in
        (c : Bytes) × (i'.1 ≡ ok (response (g1.smul isk g1.gen) seq c))
        × let r' = decrypt_response r ks (response (g1.smul isk g1.gen) seq c) in
          (r'.1 ≡ ok token) × (i'.0.rk ≡ r'.0.rk) × (i'.0.ck ≡ r'.0.ck)
  unfolding respond open_response
  decrypt_response-handle_broker_request i r ks nonce issuer now seq sk isk refresh token scope reg
        same rsk rpk new_a new_b n full valid signed sent =
      (
        c,
        ap (λ x. x.1) handled
            ∙ rw
                (
                  keyed,
                  valid,
                  signed,
                  aes_gcm_encrypt-eq mk (json.marshal token 1800) aad nonce (length-mk keys.1),
                )
                refl,
        (
          opened,
          ap (λ x. x.0.rk) handled ∙ ap (λ k. k.0) keyed ∙ ap (λ x. x.0.rk) (sym decrypted),
          ap (λ x. x.0.ck) handled
              ∙ ap (λ k. (kdf_ck k.1).0) keyed
              ∙ ap (λ x. x.0.ck) (sym decrypted),
        ),
      )
    where
      keys : Bytes × Bytes
      keys = keys_of (root r.seeded r.rk ks) sk (g1.smul isk g1.gen)

      keyed : keys_of (root i.seeded i.rk ks) isk (g1.smul sk g1.gen) ≡ keys
      keyed = agreed _ sk isk ∙ ap (λ rk. keys_of rk sk (g1.smul isk g1.gen)) same

      handled :
          let own = keys_of (root i.seeded i.rk ks) isk (g1.smul sk g1.gen) in
          let after = turned own.0 (kdf_ck own.1).0 (g1.smul sk g1.gen) isk in
          handle_broker_request i
            (world ks isk nonce now issuer)
            (request (g1.smul sk g1.gen) seq refresh)
          ≡ (
            after,
            respond after
                (kdf_ck own.1).1
                (world ks isk nonce now issuer)
                (request (g1.smul sk g1.gen) seq refresh),
          )
      handled = handle-new i ks nonce issuer now (g1.smul sk g1.gen) isk seq refresh full new_a

      mk : Bytes
      mk = (kdf_ck keys.1).1

      aad : Bytes
      aad = refresh_aad seq (g1.compress (g1.smul sk g1.gen))

      c : Bytes
      c = nonce ++ h.seal mk nonce (json.marshal token 1800) aad

      decrypted :
          let after =
            with_keys (seed_rp ks r) keys.0 (kdf_ck keys.1).0 (some (g1.smul isk g1.gen)) in
          decrypt_response r ks (response (g1.smul isk g1.gen) seq c)
          ≡ (after, open_response after mk (response (g1.smul isk g1.gen) seq c))
      decrypted = decrypt-new r ks (g1.smul isk g1.gen) sk seq c rsk new_b

      opened : (decrypt_response r ks (response (g1.smul isk g1.gen) seq c)).1 ≡ ok token
      opened =
          ap (λ x. x.1) decrypted
          ∙ rw
              (
                rpk,
                aes_gcm_decrypt-eq mk (json.marshal token 1800) aad nonce (length-mk keys.1) n,
                json.unmarshal-marshal token 1800,
                sent,
              )
              refl
