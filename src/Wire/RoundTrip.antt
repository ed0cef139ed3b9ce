-- ===== src/Wire/RoundTrip.antt =====
-- What is sent is what is received.
use orionlink.Prelude.{
  ℕ, ◌≡◌, refl, ap, ◌∙◌, sym, Option, none, some, [], ◌∷◌, Bytes, ok, length, arith, ◌<◌,
}
use orionlink.Ecc.{Bls, Curve, Scalar}
use orionlink.Wire.{
  Codec, scalar_to_bytes, bytes_to_scalar, point_to_bytes, bytes_to_point, bytes_to_string,
  string_to_bytes, point_to_string, string_to_point, set_bytes_unchecked,
}

module _ ⦃codec : Codec⦄ where
  empty_of_encode : (bytes : Bytes) → codec.encode bytes ≡ [] → bytes ≡ []
  empty_of_encode bytes h =
      let same : some bytes ≡ some [] =
        sym (codec.decode-encode bytes)
        ∙ ap codec.decode (h ∙ sym codec.encode-nil)
        ∙ codec.decode-encode [] in
      cc same

  -- The encoding of something is something.
  pub encode-ne-nil :
      (bytes : Bytes) → 0 < length bytes → (c : ℕ) × (s : Bytes) × (codec.encode bytes ≡ c ∷ s)
  encode-ne-nil bytes long = go (codec.encode bytes) refl
    where
      go :
          (e : Bytes)
          → codec.encode bytes ≡ e
          → (c : ℕ) × (s : Bytes) × (codec.encode bytes ≡ c ∷ s)
      go [] h = absurd (omega (arith, ap length (empty_of_encode bytes h)))
      go (c ∷ s) h = (c, s, h)

module _ ⦃b : Bls⦄ where
  -- A pointer to a point, nil or not, survives the encoding as bytes.
  pub bytes_to_point-point_to_bytes :
      (C : Curve b.field) (p : Option C.Point) → bytes_to_point C (point_to_bytes C p) ≡ ok p
  unfolding bytes_to_point point_to_bytes
  bytes_to_point-point_to_bytes C none = refl
  bytes_to_point-point_to_bytes C (some p) = rw (C.set_bytes-compress p) refl

  pub bytes_to_scalar-scalar_to_bytes :
      (a : Scalar) → bytes_to_scalar (scalar_to_bytes (some a)) ≡ ok a
  unfolding bytes_to_scalar scalar_to_bytes
  bytes_to_scalar-scalar_to_bytes a = rw (b.field.unmarshal-marshal a) refl

  module _ ⦃codec : Codec⦄ where
    string_to_point-cons :
        (C : Curve b.field) (p : C.Point) (c : ℕ) (s : Bytes)
        → codec.encode (C.compress p) ≡ c ∷ s
        → string_to_point C (c ∷ s) ≡ ok (some p)
    unfolding string_to_point string_to_bytes
    string_to_point-cons C p c s h =
        rw
          (
            sym (ap codec.decode h) ∙ codec.decode-encode (C.compress p),
            set_bytes_unchecked,
            C.set_bytes-compress p,
          )
          refl

    -- A pointer to a point, nil or not, survives the encoding as a text.
    pub string_to_point-point_to_string :
        (C : Curve b.field) (p : Option C.Point) → string_to_point C (point_to_string C p) ≡ ok p
    unfolding point_to_string bytes_to_string
    string_to_point-point_to_string C none = unfold string_to_point in refl
    string_to_point-point_to_string C (some p) =
        let (c, s, h) =
          encode-ne-nil (C.compress p) (omega (arith, C.length-compress p, C.size-long)) in
        rw h (string_to_point-cons C p c s h)
