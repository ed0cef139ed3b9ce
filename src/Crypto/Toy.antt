-- ===== src/Crypto/Toy.antt =====
-- A value of the parameter for the examples: hashes that keep a part of their input, and a cipher
-- that writes the plaintext behind a copy of the key and the associated data.
use orionlink.Prelude.{
  ℕ, zero, suc, ◌≡◌, refl, Bytes, bytes_eq, bytes_eq_refl, Option, none, some, [], ◌∷◌, ◌++◌,
  length, take, drop, take-append, drop-append, if◌then◌else◌, arith,
}
use orionlink.Crypto.{Crypto}

-- The first `n` bytes, padded with zeros.
abbrev pub fit : ℕ → Bytes → Bytes
fit zero xs = []
fit (suc n) [] = 0 ∷ fit n []
fit (suc n) (x ∷ xs) = x ∷ fit n xs

pub length-fit : (n : ℕ) (xs : Bytes) → length (fit n xs) ≡ n
length-fit zero xs = refl
length-fit (suc n) [] = omega (arith, length-fit n [])
length-fit (suc n) (x ∷ xs) = omega (arith, length-fit n xs)

abbrev pub tag : Bytes → Bytes → Bytes
tag key aad = length aad ∷ key ++ aad

unfoldable pub open_tagged : Bytes → Bytes → Option Bytes
open_tagged t sealed =
    if bytes_eq (take (length t) sealed) t then some (drop (length t) sealed) else none

pub open_tagged-append : (t plaintext : Bytes) → open_tagged t (t ++ plaintext) ≡ some plaintext
unfolding open_tagged
open_tagged-append t plaintext =
    rw (take-append t plaintext, bytes_eq_refl t, drop-append t plaintext) refl

instance abbrev pub toy_crypto : Crypto
toy_crypto = record {
  sha256 = λ xs. fit 32 xs;
  hmac_sha256 = λ key message. fit 32 (message ++ key);
  hkdf_extract = λ secret salt. salt ++ secret;
  hkdf_expand = λ prk info n. fit n prk;
  length-hkdf_expand = λ prk info n. length-fit n prk;
  length-hmac = λ key message. length-fit 32 (message ++ key);
  nonce_size = 2;
  seal = λ key nonce plaintext aad. tag key aad ++ plaintext;
  unseal = λ key nonce sealed aad. open_tagged (tag key aad) sealed;
  unseal-seal = λ key nonce plaintext aad. open_tagged-append (tag key aad) plaintext;
}
