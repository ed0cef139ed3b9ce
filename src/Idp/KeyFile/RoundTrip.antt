-- ===== src/Idp/KeyFile/RoundTrip.antt =====
-- What the IdP saves of its keys it loads.
use orionlink.Prelude.{
  ◌≡◌, refl, true, false, some, List, [], ◌∷◌, map, Bytes, is_empty, length, ok, arith,
}
use orionlink.Ecc.{Bls, Scalar, G1}
use orionlink.Wire.{scalar_to_bytes, bytes_to_scalar, point_to_bytes, bytes_to_point}
use orionlink.Cred.PsSig.{key_of}
use orionlink.Register.{ServerCredKey}
use orionlink.Files.{File, Json, Hex, encode_hex-full}
use orionlink.Idp.KeyFile.{
  KeyStorage, load_key_storage, save_key_storage, save_identity_key, load_identity_key, digits_of,
  save_cred_key, read_secrets, load_cred_key,
}

module _ ⦃json : Json KeyStorage⦄ ⦃hex : Hex⦄ ⦃b : Bls⦄ where
  open b use {field, g1}

  compress-full : (p : G1) → is_empty (g1.compress p) ≡ false
  compress-full p = go (g1.compress p) (g1.length-compress p)
    where
      go : (s : Bytes) → length s ≡ g1.size → is_empty s ≡ false
      go [] e = absurd (omega (arith, e, g1.size-long))
      go (c ∷ s) e = refl

  read_secrets-digits_of : (ys : List Scalar) → read_secrets (map digits_of (map some ys)) ≡ ok ys
  unfolding read_secrets scalar_to_bytes bytes_to_scalar
  read_secrets-digits_of [] = refl
  read_secrets-digits_of (y ∷ ys) =
      rw
        (
          hex.decode_hex-encode_hex (field.marshal y),
          field.unmarshal-marshal y,
          read_secrets-digits_of ys,
        )
        refl

  module _ (scalars : (a : Scalar) → is_empty (field.marshal a) ≡ false) where
    -- The credential keys that were made from secrets are loaded as they were saved, with their
    -- public keys, when no encoding of a scalar is empty.
    pub load_cred_key-save_cred_key :
        (x1 x2 : Scalar) (ys1 ys2 : List Scalar) (file other : File)
        → let keys : ServerCredKey = record {
          ps_key1 = some (key_of x1 ys1);
          ps_key2 = some (key_of x2 ys2);
        } in
          load_cred_key (save_cred_key true keys file other).0 other ≡ ok keys
    unfolding load_cred_key save_cred_key save_key_storage load_key_storage scalar_to_bytes
        bytes_to_scalar
    load_cred_key-save_cred_key x1 x2 ys1 ys2 file other =
        rw
          (
            json.unmarshal-marshal _,
            encode_hex-full (field.marshal x1) (scalars x1),
            encode_hex-full (field.marshal x2) (scalars x2),
            hex.decode_hex-encode_hex (field.marshal x1),
            field.unmarshal-marshal x1,
            read_secrets-digits_of ys1,
            hex.decode_hex-encode_hex (field.marshal x2),
            field.unmarshal-marshal x2,
            read_secrets-digits_of ys2,
          )
          refl

    -- The same of the identity key: a secret and a public key.
    load_identity_key-save_identity_key :
        (sk : Scalar) (pk : G1) (file other : File)
        → load_identity_key
            (save_identity_key true (record { sk = some sk; pk = some pk }) file other).0
            other
          ≡ ok (record { sk = some sk; pk = some pk })
    unfolding load_identity_key save_identity_key save_key_storage load_key_storage scalar_to_bytes
        bytes_to_scalar point_to_bytes bytes_to_point
    load_identity_key-save_identity_key sk pk file other =
        rw
          (
            json.unmarshal-marshal _,
            encode_hex-full (field.marshal sk) (scalars sk),
            encode_hex-full (g1.compress pk) (compress-full pk),
            hex.decode_hex-encode_hex (field.marshal sk),
            hex.decode_hex-encode_hex (g1.compress pk),
            field.unmarshal-marshal sk,
            g1.set_bytes-compress pk,
          )
          refl
