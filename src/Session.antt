-- ===== src/Session.antt =====
-- lib/utils.go, and the X3DH functions of RP/aaka.go and IdP/aake.go: the session key K_S that the
-- RP and the IdP derive, and encryption under it.
pub mod Agreement
use orionlink.Prelude.{
  ℕ, ◌+◌, ◌≡◌, Bool, true, false, not, Option, none, some, List, [], ◌∷◌, ◌++◌, Bytes, Slice, text,
  bytes_eq, content, take, drop, length, ltb, ◌==◌, Result, ok, err, panic, ◌>>=◌, ◌>>◌, deref,
  or_err, fail_if, rename_err, if◌then◌else◌, Dict, lookup,
}
use orionlink.Ecc.{Bls, Scalar, G1}
use orionlink.Crypto.{Crypto}
use orionlink.Wire.{Codec}
use orionlink.Cred.{Rng, must_draw}

module _ ⦃b : Bls⦄ where
  pub record DhKey : Type 0 where
    pub sk : Option Scalar
    pub pk : Option G1

  -- `AAKEEphemeralKey`.
  pub record EphemeralKey : Type 0 where
    pub id : Bytes
    pub sk : Option Scalar
    pub pk : Option G1

  -- `e2eeData`: what the IdP decodes of the request.
  pub record E2eeData : Type 0 where
    pub client_pk : Option G1
    pub client_emp_pk : Option G1
    pub idp_emp_key_id : Bytes
    pub msg : Bytes

  unfoldable pub generate_emp_key : Option Scalar → Result (Scalar × G1)
  generate_emp_key drawn = do sk ← must_draw drawn; ok (sk, b.g1.smul sk b.g1.gen)

  unfoldable pub dh : Option Scalar → Option G1 → Result Bytes
  dh secret public = do
    sk ← or_err secret "sk or pk is nil"
    pk ← or_err public "sk or pk is nil"
    ok (b.g1.compress (b.g1.smul sk pk))

  abbrev pub all_there : Option Scalar → Option Scalar → Option G1 → Option G1 → Result (Unit {0})
  all_there (some _) (some _) (some _) (some _) = ok tt
  all_there none _ _ _ = err "sk or pk is nil"
  all_there (some _) none _ _ = err "sk or pk is nil"
  all_there (some _) (some _) none _ = err "sk or pk is nil"
  all_there (some _) (some _) (some _) none = err "sk or pk is nil"

  -- `X3KeyExchange` of lib/utils.go and `x3KeyExchangeRP`, which have one body: the client's side.
  unfoldable pub x3_key_exchange_rp :
      Option Scalar → Option Scalar → Option G1 → Option G1 → Result (Bytes × Bytes × Bytes)
  x3_key_exchange_rp sk1 sk2 pk1 pk2 = do
    all_there sk1 sk2 pk1 pk2
    dh1 ← dh sk1 pk2
    dh2 ← dh sk2 pk1
    dh3 ← dh sk2 pk2
    ok (dh1, dh2, dh3)

  unfoldable pub x3_key_exchange_idp :
      Option Scalar → Option Scalar → Option G1 → Option G1 → Result (Bytes × Bytes × Bytes)
  x3_key_exchange_idp sk1 sk2 pk1 pk2 = do
    all_there sk1 sk2 pk1 pk2
    dh1 ← dh sk2 pk1
    dh2 ← dh sk1 pk2
    dh3 ← dh sk2 pk2
    ok (dh1, dh2, dh3)

module _ ⦃h : Crypto⦄ where
  unfoldable pub derive_secret : Bytes → Bytes → Bytes → ℕ → Bytes
  derive_secret secret label context n = h.hkdf_expand secret ((label ++ text ":") ++ context) n

  unfoldable pub derive_session_key : Bytes × Bytes × Bytes → Bytes
  unfolding derive_secret
  derive_session_key (dh1, dh2, dh3) =
      derive_secret (h.hkdf_extract (dh1 ++ (dh2 ++ dh3)) []) (text "SessionKey") [] 32

  -- `nonce` is what the random source gives for it, if it gives anything.
  unfoldable pub aes_gcm_encrypt : Bytes → Bytes → Bytes → Option Bytes → Result Bytes
  aes_gcm_encrypt key plaintext aad nonce = do
    fail_if (not (length key == 32)) "AES-256 key length must be 32 bytes"
    n ← or_err nonce "random source failed"
    ok (n ++ h.seal key n plaintext aad)

  unfoldable pub aes_gcm_decrypt : Bytes → Bytes → Bytes → Result Bytes
  aes_gcm_decrypt key ciphertext aad = do
    fail_if (not (length key == 32)) "AES-256 key length must be 32 bytes"
    fail_if (ltb (length ciphertext) h.nonce_size) "ciphertext too short"
    or_err (h.unseal key (take h.nonce_size ciphertext) (drop h.nonce_size ciphertext) aad)
        "message authentication failed"

  module _ ⦃codec : Codec⦄ where
    unfoldable pub aes_encrypt_string : Bytes → Bytes → Option Bytes → Result Bytes
    aes_encrypt_string key plaintext nonce =
        aes_gcm_encrypt key plaintext [] nonce >>= λ c. ok (codec.encode c)

    unfoldable pub aes_decrypt_string : Bytes → Bytes → Result Bytes
    aes_decrypt_string key ciphertext =
        or_err (codec.decode ciphertext) "illegal base64 data" >>= λ c. aes_gcm_decrypt key c []

module _ ⦃b : Bls⦄ ⦃h : Crypto⦄ where
  -- The RP's side: K_S, the client's ephemeral public key, and the key confirmation.
  unfoldable pub new_session :
      Option Scalar
      → Option G1
      → Option G1
      → Option G1
      → Option Scalar
      → Option Bytes
      → Result (Bytes × G1 × Bytes)
  new_session client_sk client_pk server_pk server_emp_pk drawn nonce = do
    (emp_sk, emp_pk) ← generate_emp_key drawn
    dhs ←
        rename_err "failed to exchange keys"
          (x3_key_exchange_rp client_sk (some emp_sk) server_pk server_emp_pk)
    let ks = derive_session_key dhs
    c ← deref client_pk
    s ← deref server_pk
    e ← deref server_emp_pk
    msg ← rename_err "failed to derive session key, can't encrypt msgInit" (
        aes_gcm_encrypt ks (b.g1.compress emp_pk ++ b.g1.compress e)
          (b.g1.compress c ++ b.g1.compress s) nonce)
    ok (ks, emp_pk, msg)

  -- The IdP's side, with the pool of ephemeral keys and the identity key.
  unfoldable pub get_session_key : Dict EphemeralKey → DhKey → E2eeData → Result Bytes
  get_session_key pool identity e = do
    emp ← or_err (lookup e.idp_emp_key_id pool) "failed to get server empheral key"
    dhs ←
        rename_err "failed to exchange keys"
          (x3_key_exchange_idp identity.sk emp.sk e.client_pk e.client_emp_pk)
    let ks = derive_session_key dhs
    c ← deref e.client_pk
    s ← deref identity.pk
    dec ←
        rename_err "failed to decrypt msg"
          (aes_gcm_decrypt ks e.msg (b.g1.compress c ++ b.g1.compress s))
    ce ← deref e.client_emp_pk
    se ← deref emp.pk
    fail_if (not (bytes_eq (b.g1.compress ce ++ b.g1.compress se) dec)) "failed to decrypt msg"
    ok ks
