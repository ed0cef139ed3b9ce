-- ===== src/Crypto.antt =====
-- What the program uses of Go's crypto packages and of golang.org/x/crypto/hkdf: SHA-256, HMAC,
-- HKDF and AES-GCM. They are not part of the repository, so they are a parameter: a record of the
-- functions with their output lengths, and that `Open` undoes `Seal`.
pub mod Toy
use orionlink.Prelude.{ℕ, ◌≡◌, Bytes, Option, some, length}

pub record Crypto : Type 0 where
  pub sha256 : Bytes → Bytes
  -- `hmac.New(sha256.New, key)`, one `Write`, `Sum(nil)`.
  pub hmac_sha256 : Bytes → Bytes → Bytes
  -- `hkdf.Extract(sha256.New, secret, salt)`.
  pub hkdf_extract : Bytes → Bytes → Bytes
  -- `n` bytes read from `hkdf.Expand(sha256.New, prk, info)`.
  pub hkdf_expand : Bytes → Bytes → ℕ → Bytes
  pub length-hkdf_expand : (prk info : Bytes) (n : ℕ) → length (hkdf_expand prk info n) ≡ n
  pub length-hmac : (key message : Bytes) → length (hmac_sha256 key message) ≡ 32
  -- `gcm.NonceSize()`.
  pub nonce_size : ℕ
  -- `gcm.Seal(nil, nonce, plaintext, aad)` and `gcm.Open(nil, nonce, ciphertext, aad)` under a
  -- 32-byte key.
  pub seal : Bytes → Bytes → Bytes → Bytes → Bytes
  pub unseal : Bytes → Bytes → Bytes → Bytes → Option Bytes
  pub unseal-seal :
      (key nonce plaintext aad : Bytes)
      → unseal key nonce (seal key nonce plaintext aad) aad ≡ some plaintext
