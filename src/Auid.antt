-- ===== src/Auid.antt =====
-- The pseudonym of a user at an RP: `GenerateAuid` of IdP/aake.go blinds it with the session's
-- randomized credential, `unblindAuid` of RP/aaka.go and `GetUnblindAuid` of Broker/aaka.go take
-- the session's factor out of it again.
pub mod Stable
use orionlink.Prelude.{
  List, Option, none, some, [], ◌∷◌, Bytes, Slice, is_empty, content, Bool, true, false, ◌||◌,
  Result, ok, err, panic, ◌>>=◌, ◌>>◌, deref, or_err, fail_if, rename_err,
}
use orionlink.Ecc.{Bls, Scalar, G1}
use orionlink.Crypto.{Crypto}
use orionlink.Wire.{Codec, bytes_to_scalar, point_to_string, string_to_point}

module _ ⦃b : Bls⦄ where
  unfoldable pub hash_string_to_scalar : ⦃h : Crypto⦄ → Bytes → Scalar
  hash_string_to_scalar ⦃h⦄ s = b.field.set_bytes (h.sha256 s)

  unfoldable pub generate_auid : G1 → Scalar → G1
  generate_auid acid uid = b.g1.smul uid acid

  module _ ⦃codec : Codec⦄ where
    unfoldable pub unblind_auid : Bytes → Option Scalar → Result Bytes
    unblind_auid auid factor = do
      k ← or_err factor "missing randomization factor k"
      point ← string_to_point b.g1 auid
      auid_point ← deref point
      ok (point_to_string b.g1 (some (b.g1.smul (b.field.inv k) auid_point)))

    -- The same on the Broker, which decodes the text before it looks at the factor.
    unfoldable pub get_unblind_auid : Bytes → Option Scalar → Result Bytes
    get_unblind_auid auid factor = do
      point ← string_to_point b.g1 auid
      k ← or_err factor "randomization parameter 'k' is not available"
      auid_point ← deref point
      ok (point_to_string b.g1 (some (b.g1.smul (b.field.inv k) auid_point)))

    -- The request of `handleUnblindAuid`: the text and the factor, as the Broker sends them.
    unfoldable pub handle_unblind_auid : Bytes → Slice → Result Bytes
    handle_unblind_auid auid k_bytes = do
      fail_if (is_empty auid || is_empty (content k_bytes)) "missing auid or k"
      k ← rename_err "invalid k" (bytes_to_scalar k_bytes)
      rename_err "failed to unblind auid" (unblind_auid auid (some k))
