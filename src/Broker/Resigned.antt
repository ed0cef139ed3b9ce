-- ===== src/Broker/Resigned.antt =====
-- A token of the IdP keeps its encrypted claims when the Broker signs it anew.
use orionlink.Prelude.{ℕ, ◌+◌, ◌≤◌, ◌<◌, ◌≡◌, refl, false, some, [], Bytes, is_empty}
use orionlink.Crypto.{Crypto}
use orionlink.Token.{Claims, Jwt, registered_for, generate_id_token, generate_access_token}
use orionlink.Jwks.{PublicKey, UrlCodec, JwtParser, handle_jwks}
use orionlink.Jwks.Published.{Signer, verify_id_token-sign}
use orionlink.Broker.Resign.{or_nothing, resign_access, resign_id}

-- A public key that can be published: a positive modulus, and a positive exponent below 2^63.
abbrev pub Publishable : PublicKey → Type 0
Publishable key = (0 < key.n) × (0 < key.e) × (key.e < 9223372036854775808)

-- The claims of an ID token and of an access token.
abbrev pub id_claims : Bytes → ℕ → Bytes → Bytes → Bytes → Bytes → Claims
id_claims issuer now sub name email aud = record {
  name = name;
  email = email;
  scope = [];
  registered = registered_for issuer sub aud now 300;
}

abbrev pub access_claims : Bytes → ℕ → Bytes → Bytes → Bytes → Claims
access_claims issuer now sub scope aud = record {
  name = [];
  email = [];
  scope = scope;
  registered = registered_for issuer sub aud now 1800;
}

module _ ⦃own : Jwt⦄ ⦃url : UrlCodec⦄ ⦃h : Crypto⦄ ⦃parser : JwtParser⦄ where
  module _ (idp : Jwt) (key : PublicKey) (signer : Signer idp key) (publishable : Publishable key)
      (iss issuer sub aud t : Bytes) (issued now : ℕ) (late : issued ≤ now)
      (named : is_empty sub ≡ false) where
    pub resign_id-signed :
        (name email : Bytes)
        → idp.sign (id_claims iss issued sub name email aud) ≡ some t
        → now < issued + 300
        → is_empty name ≡ false
        → is_empty email ≡ false
        → resign_id issuer now (handle_jwks (some key)) t
          ≡ or_nothing (generate_id_token issuer now sub name email aud)
    unfolding resign_id
    resign_id-signed name email signed early n e =
        let (m, verified, (rs, rn, re, rc, ra)) =
          verify_id_token-sign idp key (id_claims iss issued sub name email aud) t now signer
            publishable.0 publishable.1 publishable.2 signed late early in
        rw (verified, ra, rs named, rn n, re e) refl

    pub resign_access-signed :
        (scope : Bytes)
        → idp.sign (access_claims iss issued sub scope aud) ≡ some t
        → now < issued + 1800
        → is_empty scope ≡ false
        → resign_access issuer now (handle_jwks (some key)) t
          ≡ or_nothing (generate_access_token issuer now sub scope aud)
    unfolding resign_access
    resign_access-signed scope signed early c =
        let (m, verified, (rs, rn, re, rc, ra)) =
          verify_id_token-sign idp key (access_claims iss issued sub scope aud) t now signer
            publishable.0 publishable.1 publishable.2 signed late early in
        rw (verified, ra, rs named, rc c) refl
