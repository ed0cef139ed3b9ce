-- ===== src/Token/Lifetime.antt =====
-- How long a refresh token is honoured, and what else is honoured as one.
use orionlink.Prelude.{
  or_err-eq-ok, Bool-cases, ℕ, ◌+◌, ◌≤◌, ◌<◌, ◌≡◌, refl, Bytes, ok, err, inl, inr, arith, ltb,
  if◌then◌else◌,
}
use orionlink.Token.{
  Jwt, registered_for, generate_access_token, generate_refresh_token, validate_refresh_token,
}

module _ ⦃jwt : Jwt⦄ where
  -- A refresh token of the IdP is valid from its issue for two hours, with the subject, the scope
  -- and the audience it was made for, and from then on it is refused.
  pub validate_refresh_token-generate_refresh_token :
      (issuer user_id scope audience token : Bytes) (issued now : ℕ)
      → generate_refresh_token issuer issued user_id scope audience ≡ ok token
      → issued ≤ now
      → validate_refresh_token now token ≡ (
          if ltb now (issued + 7200)
          then ok (scope, registered_for issuer user_id audience issued 7200)
          else err "invalid token")
  unfolding generate_refresh_token validate_refresh_token
  validate_refresh_token-generate_refresh_token issuer user_id scope audience token issued now h
        le =
      elim (Bool-cases (ltb now (issued + 7200))) [
        | inl early ↦
            rw (early, jwt.parse-sign _ token now (or_err-eq-ok _ _ h) le (ground arith)) refl
        | inr late ↦
            rw (late, jwt.parse-expired _ token now (or_err-eq-ok _ _ h) (ground arith)) refl
      ]

  -- An access token is accepted in place of a refresh token during its own half hour.
  pub validate_refresh_token-generate_access_token :
      (issuer user_id scope audience token : Bytes) (issued now : ℕ)
      → generate_access_token issuer issued user_id scope audience ≡ ok token
      → issued ≤ now
      → now < issued + 1800
      → validate_refresh_token now token
        ≡ ok (scope, registered_for issuer user_id audience issued 1800)
  unfolding generate_access_token validate_refresh_token
  validate_refresh_token-generate_access_token issuer user_id scope audience token issued now h le
        lt =
      rw (jwt.parse-sign _ token now (or_err-eq-ok _ _ h) le lt) refl
