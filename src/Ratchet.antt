-- ===== src/Ratchet.antt =====
-- The key derivation of the refresh ratchet, which IdP/refresh.go and RP/refresh.go both have, and
-- the payload that it carries.
pub mod Idp
pub mod Rp
pub mod Relay
pub mod Agreement
pub mod Healing
use orionlink.Prelude.{
  ℕ, zero, suc, ◌+◌, ◌*◌, ◌/◌, ◌%◌, ◌≡◌, Bool, true, false, Option, none, some, List, [], ◌∷◌, ◌++◌,
  Bytes, text, take, drop, is_empty, if◌then◌else◌,
}
use orionlink.Crypto.{Crypto}

-- `json.Marshal` and `json.Unmarshal` of a `refreshPayload`: the access token and its lifetime.
pub record PayloadJson : Type 0 where
  pub marshal : Bytes → ℕ → Bytes
  pub unmarshal : Bytes → Option (Bytes × ℕ)
  pub unmarshal-marshal :
      (token : Bytes) (expires_in : ℕ)
      → unmarshal (marshal token expires_in) ≡ some (token, expires_in)

-- The header and the four bytes of the 32-bit sequence number, high byte first.
unfoldable pub refresh_aad : ℕ → Bytes → Bytes
refresh_aad seq hdr =
    hdr ++ (seq / 16777216 % 256 ∷ seq / 65536 % 256 ∷ seq / 256 % 256 ∷ seq % 256 ∷ [])

zeros : ℕ → Bytes
zeros zero = []
zeros (suc n) = 0 ∷ zeros n

module _ ⦃h : Crypto⦄ where
  -- The new root key and the new chain key.
  unfoldable pub kdf_rk : Bytes → Bytes → Bytes × Bytes
  kdf_rk rk dh =
      let okm = h.hkdf_expand (h.hkdf_extract dh rk) (text "SecureSSO:Refresh:RKCK") 64 in
      (take 32 okm, drop 32 okm)

  -- The new chain key and the message key; no chain key yet counts as 32 zero bytes.
  unfoldable pub kdf_ck : Bytes → Bytes × Bytes
  unfolding zeros
  kdf_ck ck =
      let key = if is_empty ck then zeros 32 else ck in
      (h.hmac_sha256 key (text "ck"), h.hmac_sha256 key (text "mk"))
