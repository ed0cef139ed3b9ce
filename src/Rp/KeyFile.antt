-- ===== src/Rp/KeyFile.antt =====
-- The RP's file of keys: RP/persist.go, and `NewRefreshTokenHelper` of RP/refresh.go, which tops
-- its key pairs up. A saver reads the file, changes one field and writes the file back.
pub mod RoundTrip
use orionlink.Prelude.{
  ℕ, zero, suc, ◌+◌, ◌-◌, ◌≡◌, Bool, true, false, Option, none, some, List, [], ◌∷◌, ◌++◌, map,
  Bytes, Slice, content, is_empty, length, take, ltb, Result, ok, err, panic, ◌>>=◌, ◌>>◌, or_err,
  fail_if, rename_err, if◌then◌else◌,
}
use orionlink.Ecc.{Bls, Scalar, G1}
use orionlink.Wire.{scalar_to_bytes, bytes_to_scalar, point_to_bytes, bytes_to_point}
use orionlink.Cred.{Rng}
use orionlink.Session.{generate_emp_key}
use orionlink.Ratchet.Rp.{RpRefresh}
use orionlink.Files.{
  File, Json, Hex, bootstrap_refresh_ks, read_record, or_empty_record, write_record,
}

-- `RPKeyStorage`: a key in hexadecimal digits, if there is one.
pub record RpKeyStorage : Type 0 where
  pub idp_aake_pk : Option Bytes
  pub identity_sk : Option Bytes
  pub session_ks : Option Bytes
  pub refresh_keys : List Bytes

abbrev pub empty_storage : RpKeyStorage
empty_storage = record {
  idp_aake_pk = none;
  identity_sk = none;
  session_ks = none;
  refresh_keys = [];
}

module _ ⦃json : Json RpKeyStorage⦄ where
  unfoldable pub load_rp_key_storage : File → Result RpKeyStorage
  load_rp_key_storage file = read_record json empty_storage file

  unfoldable pub save_rp_key_storage : Bool → RpKeyStorage → File → File × Result (Unit {0})
  save_rp_key_storage writable storage file = write_record json writable storage file

  -- The storage that a saver starts from.
  abbrev pub current : File → RpKeyStorage
  current file = or_empty_record empty_storage (load_rp_key_storage file)

  module _ ⦃hex : Hex⦄ where
    -- `saveSessionKS`.
    unfoldable pub save_session_ks : Bool → Bytes → File → File × Result (Unit {0})
    save_session_ks writable [] file = (file, ok tt)
    save_session_ks writable (c ∷ ks) file =
        save_rp_key_storage writable
          (record (current file) { session_ks = some (hex.encode_hex (c ∷ ks)) }) file

    -- A key that decodes and is not empty, or the bootstrap value.
    abbrev pub decoded_ks : Option Bytes → Bytes
    decoded_ks none = bootstrap_refresh_ks
    decoded_ks (some []) = bootstrap_refresh_ks
    decoded_ks (some (c ∷ ks)) = c ∷ ks

    abbrev pub stored_ks : Option Bytes → Bytes
    stored_ks none = bootstrap_refresh_ks
    stored_ks (some text) =
        if is_empty text then bootstrap_refresh_ks else decoded_ks (hex.decode_hex text)

    -- `loadSessionKS`.
    abbrev pub ks_of : Result RpKeyStorage → Bytes
    ks_of (ok storage) = stored_ks storage.session_ks
    ks_of (err _) = bootstrap_refresh_ks
    ks_of panic = bootstrap_refresh_ks

    unfoldable pub load_session_ks : File → Bytes
    load_session_ks file = ks_of (load_rp_key_storage file)

    module _ ⦃b : Bls⦄ where
      -- The digits of a secret, as the savers write them.
      abbrev pub secret_hex : Scalar → Bytes
      secret_hex sk = hex.encode_hex (content (scalar_to_bytes (some sk)))

      -- `saveRefreshKeys`.
      unfoldable pub save_refresh_keys : Bool → List Scalar → File → File × Result (Unit {0})
      save_refresh_keys writable [] file = (file, ok tt)
      save_refresh_keys writable (sk ∷ rsk) file =
          save_rp_key_storage writable
            (record (current file) { refresh_keys = map secret_hex (sk ∷ rsk) }) file

      -- The loop of `loadRefreshKeys`: one key that does not decode, and there are none.
      unfoldable pub decode_keys : List Bytes → Result (List Scalar)
      decode_keys [] = ok []
      decode_keys (text ∷ texts) = do
        bytes ← or_err (hex.decode_hex text) "invalid byte"
        sk ← bytes_to_scalar (some bytes)
        rest ← decode_keys texts
        ok (sk ∷ rest)

      abbrev pub keys_of : Result RpKeyStorage → List Scalar
      keys_of (ok storage) = or_empty_record [] (decode_keys storage.refresh_keys)
      keys_of (err _) = []
      keys_of panic = []

      -- `loadRefreshKeys`.
      unfoldable pub load_refresh_keys : File → List Scalar
      load_refresh_keys file = keys_of (load_rp_key_storage file)

      -- `saveIdentitySk` and `loadIdentitySk`.
      unfoldable pub save_identity_sk : Bool → Scalar → File → File × Result (Unit {0})
      save_identity_sk writable sk file =
          save_rp_key_storage writable
            (record (current file) { identity_sk = some (secret_hex sk) }) file

      unfoldable pub load_identity_sk : File → Result Scalar
      load_identity_sk file = do
        storage ← load_rp_key_storage file
        text ← or_err storage.identity_sk "identity sk not found in storage"
        fail_if (is_empty text) "identity sk not found in storage"
        bytes ← or_err (hex.decode_hex text) "decode SK hex"
        rename_err "convert SK to scalar" (bytes_to_scalar (some bytes))

      -- `saveIdPAAKEPk` and `loadIdPAAKEPk`.
      unfoldable pub save_idp_aake_pk : Bool → G1 → File → File × Result (Unit {0})
      save_idp_aake_pk writable pk file =
          save_rp_key_storage writable
            (record (current file) {
              idp_aake_pk = some (hex.encode_hex (content (point_to_bytes b.g1 (some pk))));
            })
            file

      unfoldable pub load_idp_aake_pk : File → Result (Option G1)
      load_idp_aake_pk file = do
        storage ← load_rp_key_storage file
        text ← or_err storage.idp_aake_pk "idp aake pk not found in storage"
        fail_if (is_empty text) "idp aake pk not found in storage"
        bytes ← or_err (hex.decode_hex text) "decode PK hex"
        rename_err "convert PK to G1" (bytes_to_point b.g1 (some bytes))

      -- `n` new keys, from number `i` of the draws on.
      unfoldable pub new_keys : ℕ → ℕ → Rng → Result (List Scalar)
      new_keys i zero rng = ok []
      new_keys i (suc n) rng = do
        (sk, pk) ← generate_emp_key (rng i)
        rest ← new_keys (i + 1) n rng
        ok (sk ∷ rest)

      -- The helper on the given keys, before its first refresh.
      abbrev pub helper_of : List Scalar → RpRefresh
      helper_of rsk = record {
        rsk = rsk;
        rpk = map (λ sk. b.g1.smul sk b.g1.gen) rsk;
        rk = [];
        ck = [];
        seeded = false;
        dh_b = none;
      }

      -- The number of pairs: 64 if none is asked for.
      abbrev pub pool_size : ℕ → ℕ
      pool_size zero = 64
      pool_size (suc n) = suc n

      -- The helper on restored keys and, where these are too few, new ones, which are then saved.
      abbrev pub top_up : Bool → List Scalar → Result (List Scalar) → File → File × Result RpRefresh
      top_up writable kept (ok []) file = (file, ok (helper_of kept))
      top_up writable kept (ok (sk ∷ new)) file = (
        (save_refresh_keys writable (kept ++ (sk ∷ new)) file).0,
        ok (helper_of (kept ++ (sk ∷ new))),
      )
      top_up writable kept (err e) file = (file, err e)
      top_up writable kept panic file = (file, panic)

      -- `NewRefreshTokenHelper`: the failure of a write is logged.
      unfoldable pub new_refresh_token_helper : Bool → ℕ → File → Rng → File × Result RpRefresh
      new_refresh_token_helper writable n file rng =
          let kept = take (pool_size n) (load_refresh_keys file) in
          top_up writable kept (new_keys 0 (pool_size n - length kept) rng) file
