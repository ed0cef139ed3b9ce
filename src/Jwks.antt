-- ===== src/Jwks.antt =====
-- The public keys that verify tokens: `rsaPublicKeyToJWK`, `jwkToPublicKey` and `VerifyIDToken` of
-- Broker/token.go, and the same two of RP/token.go. base64 and github.com/golang-jwt/jwt are
-- parameters.
pub mod BigEndian
pub mod Published
pub mod Toy
use orionlink.Prelude.{
  ℕ, ◌-◌, ◌+◌, ◌≤◌, ◌<◌, ◌≡◌, Bool, true, false, not, ◌||◌, ◌&&◌, Option, none, some, List, [], ◌∷◌,
  ◌++◌, map, Bytes, text, bytes_eq, is_empty, ltb, ◌==◌, Result, ok, err, panic, ◌>>=◌, ◌>>◌,
  or_err, fail_if, if◌then◌else◌,
}
use orionlink.Crypto.{Crypto}
use orionlink.Token.{Claims, Jwt}
use orionlink.Jwks.BigEndian.{of_bytes, to_bytes, exponent}

-- `rsa.PublicKey`: the exponent is the residue of a 64-bit integer.
pub record PublicKey : Type 0 where
  pub n : ℕ
  pub e : ℕ

-- A key of a JWKS, as far as it is read: a field that is missing or no text is `none`.
pub record Jwk : Type 0 where
  pub kty : Option Bytes
  pub kid : Option Bytes
  pub n : Option Bytes
  pub e : Option Bytes

-- `jwt.MapClaims`, as far as it is read: a claim that is missing, or no text, is `none`; the
-- audience is `none` unless it is an array.
pub record MapClaims : Type 0 where
  pub sub : Option Bytes
  pub name : Option Bytes
  pub email : Option Bytes
  pub scope : Option Bytes
  pub aud : Option (List (Option Bytes))

-- `strings.TrimRight` with one character.
unfoldable pub trim_right : ℕ → Bytes → Bytes
trim_right c [] = []
trim_right c (x ∷ xs) =
    let rest = trim_right c xs in if is_empty rest && (x == c) then [] else x ∷ rest

-- `base64.URLEncoding`, and `base64.RawURLEncoding`, which has no padding with `=`.
pub record UrlCodec : Type 0 where
  pub encode_url : Bytes → Bytes
  pub decode_raw_url : Bytes → Option Bytes
  pub decode_url : Bytes → Option Bytes
  pub decode_raw_url-encode_url :
      (bytes : Bytes) → decode_raw_url (trim_right 61 (encode_url bytes)) ≡ some bytes
  pub decode_raw_url-nil : decode_raw_url [] ≡ some []

-- The key named in a token's header, which is empty without one, as `ParseUnverified` gives it; and
-- the claims that `jwt.Parse` gives at a time, under an RSA key.
pub record JwtParser : Type 0 where
  pub kid_of : Bytes → Option Bytes
  pub parse_map : ℕ → PublicKey → Bytes → Option MapClaims

-- `v, _ := m[k].(string)`
abbrev pub or_empty : Option Bytes → Bytes
or_empty none = []
or_empty (some s) = s

-- `m[k] == s`
abbrev pub says : Option Bytes → Bytes → Bool
says none s = false
says (some v) s = bytes_eq v s

-- The decoding without padding, or else the one with padding.
abbrev pub first_of : Option Bytes → Option Bytes → Result Bytes
first_of (some bytes) other = ok bytes
first_of none other = or_err other "illegal base64 data"

module _ ⦃url : UrlCodec⦄ where
  unfoldable pub decode_either : Bytes → Result Bytes
  decode_either s = first_of (url.decode_raw_url s) (url.decode_url s)

  unfoldable pub jwk_to_public_key : Jwk → Result PublicKey
  jwk_to_public_key jwk = do
    fail_if (not (bytes_eq (or_empty jwk.kty) (text "RSA"))) "unsupported kty"
    fail_if (is_empty (or_empty jwk.n) || is_empty (or_empty jwk.e)) "missing n or e in jwk"
    n_bytes ← decode_either (or_empty jwk.n)
    e_bytes ← decode_either (or_empty jwk.e)
    ok (record { n = of_bytes n_bytes; e = exponent 0 e_bytes })

  -- `b64`.
  abbrev pub b64 : Bytes → Bytes
  b64 bytes = trim_right 61 (url.encode_url bytes)

  -- `big.NewInt(int64(e)).Bytes()`, which gives the bytes of the absolute value.
  abbrev pub exponent_bytes : ℕ → Bytes
  exponent_bytes e = to_bytes (if ltb e 9223372036854775808 then e else 18446744073709551616 - e)

  -- Without the fields `use` and `alg`, which nothing reads.
  unfoldable pub rsa_public_key_to_jwk : ⦃h : Crypto⦄ → PublicKey → Jwk
  rsa_public_key_to_jwk ⦃h⦄ pub_key = record {
    kty = some (text "RSA");
    kid = some (b64 (h.sha256 (to_bytes pub_key.n ++ exponent_bytes pub_key.e)));
    n = some (b64 (to_bytes pub_key.n));
    e = some (b64 (exponent_bytes pub_key.e));
  }

  -- `handleJWKS`, with the helper's key, which may be nil.
  unfoldable pub handle_jwks : ⦃h : Crypto⦄ → Option PublicKey → Result (List (Option Jwk))
  handle_jwks none = err "verify key not available"
  handle_jwks (some key) = ok (some (rsa_public_key_to_jwk key) ∷ [])

  -- Whether the loop of `VerifyIDToken` takes a key: the one that the header names, or the first
  -- RSA key if it names none.
  abbrev pub wanted : Bytes → Jwk → Bool
  wanted kid k = if is_empty kid then says k.kty (text "RSA") else says k.kid kid

  -- That loop. An element of the set that is no object is `none`.
  unfoldable pub choose : Bytes → List (Option Jwk) → Result (Option PublicKey)
  choose kid [] = ok none
  choose kid (none ∷ keys) = choose kid keys
  choose kid (some k ∷ keys) =
      let rest = choose kid keys in
      if wanted kid k then (jwk_to_public_key k >>= λ p. ok (some p)) else rest

  -- `VerifyIDToken` at a time, with what `fetchJWKS` gives.
  unfoldable pub verify_id_token :
      ⦃parser : JwtParser⦄ → ℕ → Result (List (Option Jwk)) → Bytes → Result MapClaims
  verify_id_token ⦃parser⦄ now jwks token = do
    kid ← or_err (parser.kid_of token) "token is malformed"
    keys ← jwks
    found ← choose kid keys
    key ← or_err found "no matching public key found in jwks"
    or_err (parser.parse_map now key token) "token invalid"
