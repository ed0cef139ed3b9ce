-- ===== src/Wire.antt =====
-- internal/common/serialize.go: points and scalars as bytes and as base64 texts. Base64 and JSON
-- are Go's own packages, so they are a parameter with the documented behaviour.
pub mod RoundTrip
pub mod Toy
use orionlink.Prelude.{
  ◌≡◌, Option, none, some, List, [], ◌∷◌, ◌++◌, Bytes, Slice, text, is_empty, Result, ok, err,
  panic, ◌>>=◌, or_err, if◌then◌else◌,
}
use orionlink.Ecc.{Bls, Curve, Scalar, G1, G2}

-- The text that the broker builds for a randomized credential.
abbrev pub acid_text : Bytes → Bytes → Bytes
acid_text s1 s2 = text "{\"Sigma1\":\"" ++ (s1 ++ (text "\",\"Sigma2\":\"" ++ (s2 ++ text "\"}")))

pub record Codec : Type 0 where
  -- `base64.StdEncoding`.
  pub encode : Bytes → Bytes
  pub decode : Bytes → Option Bytes
  pub decode-encode : (bytes : Bytes) → decode (encode bytes) ≡ some bytes
  pub encode-nil : encode [] ≡ []
  -- `json.Unmarshal` into a struct of the two texts `Sigma1` and `Sigma2`: base64 texts need no
  -- escapes.
  pub parse_acid : Bytes → Option (Bytes × Bytes)
  pub parse_acid-acid_text :
      (x y : Bytes) → parse_acid (acid_text (encode x) (encode y)) ≡ some (encode x, encode y)

module _ ⦃b : Bls⦄ where
  unfoldable pub scalar_to_bytes : Option Scalar → Slice
  scalar_to_bytes none = none
  scalar_to_bytes (some a) = some (b.field.marshal a)

  unfoldable pub bytes_to_scalar : Slice → Result Scalar
  bytes_to_scalar none = or_err (b.field.unmarshal []) "UnmarshalBinary"
  bytes_to_scalar (some bytes) = or_err (b.field.unmarshal bytes) "UnmarshalBinary"

  -- `G1ToBytes`, `G2ToBytes`.
  unfoldable pub point_to_bytes : (C : Curve b.field) → Option C.Point → Slice
  point_to_bytes C none = none
  point_to_bytes C (some p) = some (C.compress p)

  -- `BytesToG1`, `BytesToG2`: a nil slice is the nil pointer, and no error.
  unfoldable pub bytes_to_point : (C : Curve b.field) → Slice → Result (Option C.Point)
  bytes_to_point C none = ok none
  bytes_to_point C (some bytes) = or_err (C.set_bytes bytes) "SetBytes" >>= λ p. ok (some p)

  module _ ⦃codec : Codec⦄ where
    unfoldable pub bytes_to_string : Slice → Bytes
    bytes_to_string none = []
    bytes_to_string (some bytes) = codec.encode bytes

    unfoldable pub string_to_bytes : Bytes → Result Slice
    string_to_bytes [] = ok none
    string_to_bytes (c ∷ s) =
        or_err (codec.decode (c ∷ s)) "illegal base64 data" >>= λ bytes. ok (some bytes)

    unfoldable pub scalar_to_string : Option Scalar → Bytes
    scalar_to_string none = []
    scalar_to_string (some a) = bytes_to_string (scalar_to_bytes (some a))

    unfoldable pub string_to_scalar : Bytes → Result (Option Scalar)
    string_to_scalar [] = ok none
    string_to_scalar (c ∷ s) = do
      bytes ← string_to_bytes (c ∷ s)
      a ← bytes_to_scalar bytes
      ok (some a)

    -- `G1ToString`, `G2ToString`.
    unfoldable pub point_to_string : (C : Curve b.field) → Option C.Point → Bytes
    point_to_string C none = []
    point_to_string C (some p) = bytes_to_string (some (C.compress p))

    -- The receiver of `point.SetBytes(bytes)`, whose error the code does not read.
    abbrev pub set_bytes_unchecked : (C : Curve b.field) → Bytes → C.Point
    set_bytes_unchecked C bytes = elim (C.set_bytes bytes) [ some p ↦ p | none ↦ C.failed bytes ]

    -- `StringToG1`, `StringToG2`.
    unfoldable pub string_to_point : (C : Curve b.field) → Bytes → Result (Option C.Point)
    string_to_point C [] = ok none
    string_to_point C (c ∷ s) = do
      bytes ← string_to_bytes (c ∷ s)
      ok (some (set_bytes_unchecked C (elim bytes [ none ↦ [] | some xs ↦ xs ])))
