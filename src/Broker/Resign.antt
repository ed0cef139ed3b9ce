-- ===== src/Broker/Resign.antt =====
-- `resignTokensWithBrokerKey` of Broker/token.go: the IdP's tokens under the Broker's key. The
-- instance of `Jwt` is the Broker's key here.
use orionlink.Prelude.{
  ℕ, Option, List, [], ◌∷◌, Bytes, is_empty, Result, ok, err, panic, ◌>>=◌, deref, rename_err,
  if◌then◌else◌,
}
use orionlink.Token.{Jwt, generate_id_token, generate_access_token}
use orionlink.Jwks.{Jwk, MapClaims, UrlCodec, JwtParser, verify_id_token}
use orionlink.Broker.Store.{Tokens}

-- `auds := claims["aud"].([]interface{})`, and `auds[0].(string)` if there is one.
abbrev pub first_audience : MapClaims → Result Bytes
first_audience m = deref m.aud >>= head
  where
    head : List (Option Bytes) → Result Bytes
    head [] = ok []
    head (a ∷ _) = deref a

-- `t, _ := f()`
abbrev pub or_nothing : Result Bytes → Result Bytes
or_nothing (ok t) = ok t
or_nothing (err _) = ok []
or_nothing panic = panic

module _ ⦃jwt : Jwt⦄ ⦃url : UrlCodec⦄ ⦃parser : JwtParser⦄ where
  -- The access token under the Broker's key: `issuer` is the Broker's.
  unfoldable pub resign_access : Bytes → ℕ → Result (List (Option Jwk)) → Bytes → Result Bytes
  resign_access issuer now jwks token = do
    claims ← rename_err "failed to extract claims from token" (verify_id_token now jwks token)
    aud ← first_audience claims
    sub ← deref claims.sub
    scope ← deref claims.scope
    or_nothing (generate_access_token issuer now sub scope aud)

  unfoldable pub resign_id : Bytes → ℕ → Result (List (Option Jwk)) → Bytes → Result Bytes
  resign_id issuer now jwks token = do
    claims ← rename_err "failed to extract claims from token" (verify_id_token now jwks token)
    aud ← first_audience claims
    sub ← deref claims.sub
    name ← deref claims.name
    email ← deref claims.email
    or_nothing (generate_id_token issuer now sub name email aud)

  -- `if token != "" { ... }`
  abbrev pub unless_empty : Bytes → Result Bytes → Result Bytes
  unless_empty token signed = if is_empty token then ok [] else signed

  -- The whole, with what the two calls of `fetchJWKS` give. The refresh token stays as it is.
  unfoldable pub resign_tokens_with_broker_key :
      Bytes → ℕ → Result (List (Option Jwk)) → Result (List (Option Jwk)) → Tokens → Result Tokens
  resign_tokens_with_broker_key issuer now jwks jwks' original = do
    access_token ←
        unless_empty original.access_token (resign_access issuer now jwks original.access_token)
    id_token ← unless_empty original.id_token (resign_id issuer now jwks' original.id_token)
    ok (record {
      access_token = access_token;
      id_token = id_token;
      token_type = original.token_type;
      refresh_token = original.refresh_token;
    })
