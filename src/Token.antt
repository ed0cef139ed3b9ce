-- ===== src/Token.antt =====
-- IdP/token.go and the same helper of Broker/token.go: the claims of the three kinds of tokens,
-- their signing and their validation. github.com/golang-jwt/jwt is a parameter: times are whole
-- seconds, as its claims have them.
pub mod Lifetime
pub mod Toy
use orionlink.Prelude.{
  ℕ, ◌+◌, ◌≤◌, ◌<◌, ◌≡◌, Option, none, some, List, [], ◌∷◌, Bytes, Result, ok, err, or_err, ◌>>=◌,
}

-- `jwt.RegisteredClaims`, as far as the program sets them.
pub record Registered : Type 0 where
  pub issuer : Bytes
  pub subject : Bytes
  pub audience : List Bytes
  pub expires_at : ℕ
  pub issued_at : ℕ

-- The claims of the three kinds: a claim that a kind lacks is empty.
pub record Claims : Type 0 where
  pub name : Bytes
  pub email : Bytes
  pub scope : Bytes
  pub registered : Registered

-- RS256 under one key pair: `SignedString`, and `ParseWithClaims` at a time, which checks the
-- signature and that the time is in the token's lifetime.
pub record Jwt : Type 0 where
  pub sign : Claims → Option Bytes
  pub parse : ℕ → Bytes → Option Claims
  pub parse-sign :
      (c : Claims) (t : Bytes) (now : ℕ)
      → sign c ≡ some t
      → c.registered.issued_at ≤ now
      → now < c.registered.expires_at
      → parse now t ≡ some c
  pub parse-expired :
      (c : Claims) (t : Bytes) (now : ℕ)
      → sign c ≡ some t
      → c.registered.expires_at ≤ now
      → parse now t ≡ none

-- `IDTokenClaims`, `AccessTokenClaims` and `RefreshTokenClaims` under one registered part.
abbrev pub registered_for : Bytes → Bytes → Bytes → ℕ → ℕ → Registered
registered_for issuer user_id audience now ttl = record {
  issuer = issuer;
  subject = user_id;
  audience = audience ∷ [];
  expires_at = now + ttl;
  issued_at = now;
}

module _ ⦃jwt : Jwt⦄ where
  unfoldable pub generate_id_token : Bytes → ℕ → Bytes → Bytes → Bytes → Bytes → Result Bytes
  generate_id_token issuer now user_id name email audience =
      or_err
        (jwt.sign (record {
          name = name;
          email = email;
          scope = [];
          registered = registered_for issuer user_id audience now 300;
        }))
        "signing failed"

  unfoldable pub generate_access_token : Bytes → ℕ → Bytes → Bytes → Bytes → Result Bytes
  generate_access_token issuer now user_id scope audience =
      or_err
        (jwt.sign (record {
          name = [];
          email = [];
          scope = scope;
          registered = registered_for issuer user_id audience now 1800;
        }))
        "signing failed"

  unfoldable pub generate_refresh_token : Bytes → ℕ → Bytes → Bytes → Bytes → Result Bytes
  generate_refresh_token issuer now user_id scope audience =
      or_err
        (jwt.sign (record {
          name = [];
          email = [];
          scope = scope;
          registered = registered_for issuer user_id audience now 7200;
        }))
        "signing failed"

  -- `ValidateRefreshToken` and `ValidateAccessToken`, which have one body: the scope and the
  -- registered claims, whatever kind of token the key has signed.
  unfoldable pub validate_refresh_token : ℕ → Bytes → Result (Bytes × Registered)
  validate_refresh_token now token =
      or_err (jwt.parse now token) "invalid token" >>= λ c. ok (c.scope, c.registered)
