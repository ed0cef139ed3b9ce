-- ===== src/Idp/KeyFile.antt =====
-- The IdP's file of keys: IdP/persist.go. It is read at its place, or else in the data directory;
-- it is written at its place.
pub mod RoundTrip
use orionlink.Prelude.{
  ℕ, Bool, true, false, Option, none, some, List, [], ◌∷◌, map, Bytes, Slice, content, is_empty,
  Result, ok, err, panic, ◌>>=◌, ◌>>◌, ◌||◌, or_err, fail_if, rename_err, if◌then◌else◌,
}
use orionlink.Ecc.{Bls, Scalar, G1}
use orionlink.Wire.{scalar_to_bytes, bytes_to_scalar, point_to_bytes, bytes_to_point}
use orionlink.Cred.{PsKey}
use orionlink.Cred.PsSig.{key_of}
use orionlink.Session.{DhKey}
use orionlink.Register.{ServerCredKey}
use orionlink.Files.{
  File, missing, unreadable, content_of, Json, Hex, bootstrap_refresh_ks, or_empty_record,
  write_record,
}

-- `CredKeyData`: an empty text stands for no key.
pub record CredKeyData : Type 0 where
  pub ps_key1_x : Bytes
  pub ps_key1_yn : List Bytes
  pub ps_key2_x : Bytes
  pub ps_key2_yn : List Bytes

-- `KeyStorage`, with the two texts of the identity key.
pub record KeyStorage : Type 0 where
  pub identity_key : Option (Bytes × Bytes)
  pub cred_key : Option CredKeyData
  pub session_ks : Option Bytes

abbrev pub empty_storage : KeyStorage
empty_storage = record { identity_key = none; cred_key = none; session_ks = none }

module _ ⦃json : Json KeyStorage⦄ where
  -- The reading of the second place, when the first gave nothing.
  abbrev pub read_other : File → Result KeyStorage
  read_other missing = ok empty_storage
  read_other unreadable = err "read key storage file"
  read_other (content_of bytes) = or_err (json.unmarshal bytes) "unmarshal key storage"

  -- `loadKeyStorage`.
  unfoldable pub load_key_storage : File → File → Result KeyStorage
  load_key_storage (content_of bytes) other = or_err (json.unmarshal bytes) "unmarshal key storage"
  load_key_storage missing other = read_other other
  load_key_storage unreadable other = read_other other

  unfoldable pub save_key_storage : Bool → KeyStorage → File → File × Result (Unit {0})
  save_key_storage writable storage file = write_record json writable storage file

  abbrev pub current : File → File → KeyStorage
  current file other = or_empty_record empty_storage (load_key_storage file other)

  module _ ⦃hex : Hex⦄ where
    -- `saveSessionKS`.
    unfoldable pub save_session_ks : Bool → Bytes → File → File → File × Result (Unit {0})
    save_session_ks writable [] file other = (file, ok tt)
    save_session_ks writable (c ∷ ks) file other =
        save_key_storage writable
          (record (current file other) { session_ks = some (hex.encode_hex (c ∷ ks)) }) file

    abbrev pub decoded_ks : Option Bytes → Bytes
    decoded_ks none = bootstrap_refresh_ks
    decoded_ks (some []) = bootstrap_refresh_ks
    decoded_ks (some (c ∷ ks)) = c ∷ ks

    abbrev pub stored_ks : Option Bytes → Bytes
    stored_ks none = bootstrap_refresh_ks
    stored_ks (some text) =
        if is_empty text then bootstrap_refresh_ks else decoded_ks (hex.decode_hex text)

    abbrev pub ks_of : Result KeyStorage → Bytes
    ks_of (ok storage) = stored_ks storage.session_ks
    ks_of (err _) = bootstrap_refresh_ks
    ks_of panic = bootstrap_refresh_ks

    -- `loadSessionKS`.
    unfoldable pub load_session_ks : File → File → Bytes
    load_session_ks file other = ks_of (load_key_storage file other)

    module _ ⦃b : Bls⦄ where
      -- `saveIdentityKey`: a key that is nil is written as no digits.
      unfoldable pub save_identity_key : Bool → DhKey → File → File → File × Result (Unit {0})
      save_identity_key writable key file other =
          save_key_storage writable
            (record (current file other) {
              identity_key = some (
                hex.encode_hex (content (scalar_to_bytes key.sk)),
                hex.encode_hex (content (point_to_bytes b.g1 key.pk)),
              );
            })
            file

      -- `loadIdentityKey`.
      unfoldable pub load_identity_key : File → File → Result DhKey
      load_identity_key file other = do
        storage ← load_key_storage file other
        (sk_hex, pk_hex) ← or_err storage.identity_key "identity key not found in storage"
        fail_if (is_empty sk_hex || is_empty pk_hex) "identity key not found in storage"
        sk_bytes ← or_err (hex.decode_hex sk_hex) "decode SK hex"
        pk_bytes ← or_err (hex.decode_hex pk_hex) "decode PK hex"
        sk ← rename_err "convert SK to scalar" (bytes_to_scalar (some sk_bytes))
        pk ← rename_err "convert PK to G1" (bytes_to_point b.g1 (some pk_bytes))
        ok (record { sk = some sk; pk = pk })

      -- The digits of a secret, and none for one that is nil.
      abbrev pub digits_of : Option Scalar → Bytes
      digits_of none = []
      digits_of (some a) = hex.encode_hex (content (scalar_to_bytes (some a)))

      abbrev pub x_of : Option PsKey → Bytes
      x_of none = []
      x_of (some key) = digits_of key.secret_key.x

      abbrev pub yn_of : Option PsKey → List Bytes
      yn_of none = []
      yn_of (some key) = map digits_of key.secret_key.yn

      -- `saveCredKey`.
      unfoldable pub save_cred_key : Bool → ServerCredKey → File → File → File × Result (Unit {0})
      save_cred_key writable keys file other =
          save_key_storage writable
            (record (current file other) {
              cred_key = some (record {
                ps_key1_x = x_of keys.ps_key1;
                ps_key1_yn = yn_of keys.ps_key1;
                ps_key2_x = x_of keys.ps_key2;
                ps_key2_yn = yn_of keys.ps_key2;
              });
            })
            file

      abbrev pub read_secret : Bytes → Result Scalar
      read_secret text = do
        bytes ← or_err (hex.decode_hex text) "decode hex"
        bytes_to_scalar (some bytes)

      -- The loops of `loadCredKey` over the secrets of a key.
      unfoldable pub read_secrets : List Bytes → Result (List Scalar)
      read_secrets [] = ok []
      read_secrets (text ∷ texts) = do
        a ← read_secret text
        rest ← read_secrets texts
        ok (a ∷ rest)

      -- `loadCredKey`, which computes the public keys anew.
      unfoldable pub load_cred_key : File → File → Result ServerCredKey
      load_cred_key file other = do
        storage ← load_key_storage file other
        texts ← or_err storage.cred_key "cred key not found in storage"
        fail_if (is_empty texts.ps_key1_x || is_empty texts.ps_key2_x)
            "cred key not found in storage"
        x1 ← read_secret texts.ps_key1_x
        yn1 ← read_secrets texts.ps_key1_yn
        x2 ← read_secret texts.ps_key2_x
        yn2 ← read_secrets texts.ps_key2_yn
        ok (record { ps_key1 = some (key_of x1 yn1); ps_key2 = some (key_of x2 yn2) })
