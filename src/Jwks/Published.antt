-- ===== src/Jwks/Published.antt =====
-- A key that is published is the key that is read, and verifies what its owner signs.
use orionlink.Prelude.{
  ℕ, ◌≤◌, ◌<◌, ◌≡◌, refl, sym, ◌∙◌, true, false, some, [], ◌∷◌, map, Bytes, text, bytes_eq_refl,
  is_empty, ltb, ok, arith,
}
use orionlink.Crypto.{Crypto}
use orionlink.Token.{Claims, Jwt}
use orionlink.Jwks.BigEndian.{to_bytes, of_bytes-to_bytes, exponent-to_bytes, to_bytes-full}
use orionlink.Jwks.{
  PublicKey, MapClaims, UrlCodec, JwtParser, b64, decode_either, jwk_to_public_key,
  rsa_public_key_to_jwk, handle_jwks, choose, verify_id_token,
}

-- The claims of a signed token as a map: a claim that is not empty is there as a text, and the
-- audience is there as an array.
abbrev pub Reads : MapClaims → Claims → Type 0
Reads m c =
    (is_empty c.registered.subject ≡ false → m.sub ≡ some c.registered.subject)
    × (is_empty c.name ≡ false → m.name ≡ some c.name)
    × (is_empty c.email ≡ false → m.email ≡ some c.email)
    × (is_empty c.scope ≡ false → m.scope ≡ some c.scope)
    × (m.aud ≡ some (map some c.registered.audience))

-- `public_key` belongs to the key that `jwt` signs with: in its lifetime, a token that it signed
-- parses under `public_key`, and its header names no key.
pub record Signer ⦃parser : JwtParser⦄ (jwt : Jwt) (public_key : PublicKey) : Type 0 where
  pub kid_of-sign : (c : Claims) (t : Bytes) → jwt.sign c ≡ some t → parser.kid_of t ≡ some []
  pub parse_map-sign :
      (c : Claims) (t : Bytes) (now : ℕ)
      → jwt.sign c ≡ some t
      → c.registered.issued_at ≤ now
      → now < c.registered.expires_at
      → (m : MapClaims) × (parser.parse_map now public_key t ≡ some m) × Reads m c

module _ ⦃url : UrlCodec⦄ ⦃h : Crypto⦄ where
  b64-full : (bytes : Bytes) → is_empty bytes ≡ false → is_empty (b64 bytes) ≡ false
  b64-full bytes full = go (b64 bytes) (url.decode_raw_url-encode_url bytes)
    where
      go : (s : Bytes) → url.decode_raw_url s ≡ some bytes → is_empty s ≡ false
      go [] e = let same : some [] ≡ some bytes = sym url.decode_raw_url-nil ∙ e in cc (same, full)
      go (c ∷ s) e = refl

  decode_either-b64 : (bytes : Bytes) → decode_either (b64 bytes) ≡ ok bytes
  unfolding decode_either
  decode_either-b64 bytes = rw (url.decode_raw_url-encode_url bytes) refl

  -- The JWK of a key with a positive modulus and a positive exponent below 2^63 reads as that key.
  pub jwk_to_public_key-rsa_public_key_to_jwk :
      (key : PublicKey)
      → 0 < key.n
      → 0 < key.e
      → key.e < 9223372036854775808
      → jwk_to_public_key (rsa_public_key_to_jwk key) ≡ ok key
  unfolding jwk_to_public_key rsa_public_key_to_jwk
  jwk_to_public_key-rsa_public_key_to_jwk key n e small =
      rw
        (
          bytes_eq_refl (text "RSA"),
          b64-full (to_bytes key.n) (to_bytes-full key.n n),
          fits,
          b64-full (to_bytes key.e) (to_bytes-full key.e e),
          decode_either-b64 (to_bytes key.n),
          decode_either-b64 (to_bytes key.e),
          of_bytes-to_bytes key.n,
          exponent-to_bytes key.e (omega (arith, small)),
        )
        refl
    where
      fits : ltb key.e 9223372036854775808 ≡ true
      fits = ground arith

  module _ ⦃parser : JwtParser⦄ where
    -- In its lifetime, a token that the owner of a key signed, verified against the key set that is
    -- published for the key, gives the claims that were signed.
    pub verify_id_token-sign :
        (jwt : Jwt) (key : PublicKey) (c : Claims) (t : Bytes) (now : ℕ)
        → Signer jwt key
        → 0 < key.n
        → 0 < key.e
        → key.e < 9223372036854775808
        → jwt.sign c ≡ some t
        → c.registered.issued_at ≤ now
        → now < c.registered.expires_at
        → (m : MapClaims) × (verify_id_token now (handle_jwks (some key)) t ≡ ok m) × Reads m c
    unfolding verify_id_token handle_jwks choose rsa_public_key_to_jwk
    verify_id_token-sign jwt key c t now s n e small signed late early =
        let (m, parsed, reads) = s.parse_map-sign c t now signed late early in
        (
          m,
          rw
              (
                s.kid_of-sign c t signed,
                bytes_eq_refl (text "RSA"),
                jwk_to_public_key-rsa_public_key_to_jwk key n e small,
                parsed,
              )
              refl,
          reads,
        )
