-- ===== src/Rp/KeyFile/RoundTrip.antt =====
-- What the RP saves it loads, and its key pairs survive a restart.
use mathlib.Core.Path.{subst}
use orionlink.Prelude.{
  Bool, ℕ, zero, suc, ◌+◌, ◌-◌, ◌≤◌, ◌≡◌, refl, sym, ap, ◌∙◌, true, List, [], ◌∷◌, ◌++◌, map, Bytes,
  length, length-append, take, Result, ok, arith,
}
use orionlink.Ecc.{Bls, Scalar}
use orionlink.Wire.{scalar_to_bytes, bytes_to_scalar}
use orionlink.Cred.{Rng, supply}
use orionlink.Session.{generate_emp_key}
use orionlink.Ratchet.Rp.{RpRefresh}
use orionlink.Files.{File, Json, Hex, encode_hex-full}
use orionlink.Rp.KeyFile.{
  RpKeyStorage, load_rp_key_storage, save_rp_key_storage, save_session_ks, load_session_ks,
  secret_hex, save_refresh_keys, decode_keys, load_refresh_keys, new_keys, helper_of, pool_size,
  top_up, new_refresh_token_helper,
}

module _ ⦃json : Json RpKeyStorage⦄ ⦃hex : Hex⦄ ⦃b : Bls⦄ where
  open b use {field, g1}

  decode_keys-secret_hex : (rsk : List Scalar) → decode_keys (map secret_hex rsk) ≡ ok rsk
  unfolding decode_keys scalar_to_bytes bytes_to_scalar
  decode_keys-secret_hex [] = refl
  decode_keys-secret_hex (sk ∷ rsk) =
      rw
        (
          hex.decode_hex-encode_hex (field.marshal sk),
          field.unmarshal-marshal sk,
          decode_keys-secret_hex rsk,
        )
        refl

  -- Keys that were saved, at least one, are loaded.
  pub load_refresh_keys-save_refresh_keys :
      (sk : Scalar) (rsk : List Scalar) (file : File)
      → load_refresh_keys (save_refresh_keys true (sk ∷ rsk) file).0 ≡ sk ∷ rsk
  unfolding load_refresh_keys save_refresh_keys save_rp_key_storage load_rp_key_storage
  load_refresh_keys-save_refresh_keys sk rsk file =
      rw (json.unmarshal-marshal _, decode_keys-secret_hex (sk ∷ rsk)) refl

  -- A session key that is not empty is loaded as it was saved, and saving it leaves the keys of the
  -- refresh as they were, if the file could be read.
  pub load_session_ks-save_session_ks :
      (c : ℕ) (ks : Bytes) (file : File) (storage : RpKeyStorage)
      → load_rp_key_storage file ≡ ok storage
      → let file' = (save_session_ks true (c ∷ ks) file).0 in
        (load_session_ks file' ≡ c ∷ ks) × (load_refresh_keys file' ≡ load_refresh_keys file)
  unfolding load_session_ks save_session_ks save_rp_key_storage load_rp_key_storage
      load_refresh_keys
  load_session_ks-save_session_ks c ks file storage readable = (
    rw (json.unmarshal-marshal _, encode_hex-full (c ∷ ks) refl, hex.decode_hex-encode_hex (c ∷ ks))
        refl,
    rw (json.unmarshal-marshal _, readable) refl,
  )

  new_keys-length :
      (i n : ℕ) (f : ℕ → Scalar)
      → (ks : List Scalar) × (new_keys i n (supply f) ≡ ok ks) × (length ks ≡ n)
  unfolding new_keys generate_emp_key
  new_keys-length i zero f = ([], refl, refl)
  new_keys-length i (suc n) f =
      let (ks, e, l) = new_keys-length (i + 1) n f in (f i ∷ ks, rw e refl, ap suc l)

  take-length : (n : ℕ) (xs : List Scalar) → length (take n xs) ≤ n
  take-length zero xs = omega arith
  take-length (suc n) [] = omega arith
  take-length (suc n) (x ∷ xs) = omega (arith, take-length n xs)

  take-all : (n : ℕ) (xs : List Scalar) → length xs ≡ n → take n xs ≡ xs
  take-all zero [] e = refl
  take-all zero (x ∷ xs) e = absurd (omega (arith, e))
  take-all (suc n) [] e = refl
  take-all (suc n) (x ∷ xs) e = ap (λ ys. x ∷ ys) (take-all n xs (omega (arith, e)))

  saved :
      (m : ℕ) (xs : List Scalar) (file : File)
      → length xs ≡ suc m
      → load_refresh_keys (save_refresh_keys true xs file).0 ≡ xs
  saved m [] file e = absurd (omega (arith, e))
  saved m (x ∷ xs) file e = load_refresh_keys-save_refresh_keys x xs file

  -- The start of the RP on a file that holds as many keys as are asked for, or more.
  full_start :
      (n : ℕ) (file : File) (kept : List Scalar) (rng : Rng) (writable : Bool)
      → take (pool_size n) (load_refresh_keys file) ≡ kept
      → length kept ≡ pool_size n
      → new_refresh_token_helper writable n file rng ≡ (file, ok (helper_of kept))
  unfolding new_refresh_token_helper new_keys
  full_start n file kept rng writable e l = rw (e, none_left) refl
    where
      none_left : pool_size n - length kept ≡ 0
      none_left = omega (arith, l)

  pool_size-suc : (n : ℕ) → (m : ℕ) × (pool_size n ≡ suc m)
  pool_size-suc zero = (63, refl)
  pool_size-suc (suc n) = (n, refl)

  -- Both starts of the RP, by the keys that the first one has made.
  Restarts : ℕ → File → File × Result RpRefresh → Type 0
  Restarts n file first =
      (rsk : List Scalar) × (first.1 ≡ ok (helper_of rsk))
      × (length rsk ≡ pool_size n)
      × ((rng : Rng) (writable : Bool)
          → new_refresh_token_helper writable n first.0 rng ≡ (first.0, ok (helper_of rsk)))

  topped :
      (n : ℕ) (file : File) (kept new : List Scalar)
      → take (pool_size n) (load_refresh_keys file) ≡ kept
      → length kept + length new ≡ pool_size n
      → Restarts n file (top_up true kept (ok new) file)
  unfolding Restarts
  topped n file kept [] e l = (
    kept,
    refl,
    omega (arith, l),
    λ rng writable. full_start n file kept rng writable e (omega (arith, l)),
  )
  topped n file kept (sk ∷ new) e l =
      let (m, size) = pool_size-suc n in
      let long : length (kept ++ (sk ∷ new)) ≡ pool_size n =
        omega (arith, length-append kept (sk ∷ new), l) in
      (
        kept ++ (sk ∷ new),
        refl,
        long,
        λ rng writable.
            full_start n (save_refresh_keys true (kept ++ (sk ∷ new)) file).0 (kept ++ (sk ∷ new))
              rng writable
              (ap (take (pool_size n)) (saved m (kept ++ (sk ∷ new)) file (long ∙ size))
                ∙ take-all (pool_size n) (kept ++ (sk ∷ new)) long)
              long,
      )

  -- A start on a file, by what it keeps and what it adds.
  started :
      (n : ℕ) (file : File) (f : ℕ → Scalar) (kept ks : List Scalar)
      → take (pool_size n) (load_refresh_keys file) ≡ kept
      → new_keys 0 (pool_size n - length kept) (supply f) ≡ ok ks
      → new_refresh_token_helper true n file (supply f) ≡ top_up true kept (ok ks) file
  unfolding new_refresh_token_helper
  started n file f kept ks e e' = rw (e, e') refl

  -- On any file that can be written, and a random source that does not fail, the RP starts with
  -- exactly the key pairs that are asked for, 64 if none are; and started again on the file that it
  -- leaves, it has the same ones and leaves the file as it is.
  pub new_refresh_token_helper-restart :
      (n : ℕ) (file : File) (f : ℕ → Scalar)
      → let first = new_refresh_token_helper true n file (supply f) in
        (rsk : List Scalar) × (first.1 ≡ ok (helper_of rsk))
        × (length rsk ≡ pool_size n)
        × ((rng : Rng) (writable : Bool)
            → new_refresh_token_helper writable n first.0 rng ≡ (first.0, ok (helper_of rsk)))
  unfolding Restarts
  new_refresh_token_helper-restart n file f =
      let kept = take (pool_size n) (load_refresh_keys file) in
      let (ks, e, l) = new_keys-length 0 (pool_size n - length kept) f in
      subst (Restarts n file) (sym (started n file f kept ks refl e)) (
        topped n file kept ks refl
          (omega (arith, l, take-length (pool_size n) (load_refresh_keys file))))
