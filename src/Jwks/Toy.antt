-- ===== src/Jwks/Toy.antt =====
-- Values of the parameters for the examples.
use orionlink.Prelude.{
  false, ◌+◌, ◌-◌, ◌≡◌, refl, ap, ap₂, Option, none, some, [], ◌∷◌, map, Bytes, is_empty, arith,
}
use orionlink.Token.{Claims}
use orionlink.Token.Toy.{toy_jwt}
use orionlink.Jwks.{PublicKey, MapClaims, UrlCodec, JwtParser, trim_right}
use orionlink.Jwks.Published.{Signer}

unfoldable pub up : Bytes → Bytes
up [] = []
up (x ∷ xs) = (x + 62) ∷ up xs

unfoldable pub down : Bytes → Bytes
down [] = []
down (x ∷ xs) = (x - 62) ∷ down xs

pub trim_right-up : (xs : Bytes) → trim_right 61 (up xs) ≡ up xs
unfolding trim_right up
trim_right-up [] = refl
trim_right-up (x ∷ xs) = ground (arith, trim_right-up xs)

pub down-up : (xs : Bytes) → down (up xs) ≡ xs
unfolding down up
down-up [] = refl
down-up (x ∷ xs) = ap₂ ◌∷◌ (omega arith) (down-up xs)

-- base64 as a shift past the character of the padding.
instance abbrev pub toy_url : UrlCodec
unfolding trim_right down
toy_url = record {
  encode_url = up;
  decode_raw_url = λ s. some (down s);
  decode_url = λ s. some (down s);
  decode_raw_url-encode_url = λ bytes. rw (trim_right-up bytes, down-up bytes) refl;
  decode_raw_url-nil = refl;
}

-- A claim that is empty is missing.
abbrev pub present : Bytes → Option Bytes
present [] = none
present (c ∷ s) = some (c ∷ s)

abbrev pub as_map : Option Claims → Option MapClaims
as_map none = none
as_map (some c) = some (record {
  sub = present c.registered.subject;
  name = present c.name;
  email = present c.email;
  scope = present c.scope;
  aud = some (map some c.registered.audience);
})

-- The tokens of the toy signer under every key.
instance abbrev pub toy_parser : JwtParser
toy_parser = record { kid_of = λ t. some []; parse_map = λ now key t. as_map (toy_jwt.parse now t) }

pub present-full : (s : Bytes) → is_empty s ≡ false → present s ≡ some s
present-full [] h = cc h
present-full (c ∷ s) h = refl

abbrev pub toy_signer : (key : PublicKey) → Signer toy_jwt key
toy_signer key = record {
  kid_of-sign = λ c t signed. refl;
  parse_map-sign = λ c t now signed late early. (
    _,
    ap as_map (toy_jwt.parse-sign c t now signed late early),
    (
      present-full c.registered.subject,
      present-full c.name,
      present-full c.email,
      present-full c.scope,
      refl,
    ),
  );
}
