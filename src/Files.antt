-- ===== src/Files.antt =====
-- What the program uses of Go's os, encoding/json and encoding/hex to keep its keys in files, and
-- internal/common/refresh_ks.go. The codecs are parameters with their documented behaviour.
pub mod Toy
use orionlink.Prelude.{
  ◌≡◌, refl, sym, ◌∙◌, true, false, Bool, panic, Option, none, some, [], ◌∷◌, Bytes, is_empty,
  Result, ok, err, or_err, if◌then◌else◌,
}

-- A file, as `os.ReadFile` finds it.
pub data File : Type 0 where
  missing : File
  unreadable : File
  content_of : Bytes → File

-- `json.MarshalIndent` and `json.Unmarshal` for a type.
pub record Json (A : Type 0) : Type 0 where
  pub marshal : A → Bytes
  pub unmarshal : Bytes → Option A
  pub unmarshal-marshal : (a : A) → unmarshal (marshal a) ≡ some a

-- `hex.EncodeToString` and `hex.DecodeString`.
pub record Hex : Type 0 where
  pub encode_hex : Bytes → Bytes
  pub decode_hex : Bytes → Option Bytes
  pub decode_hex-encode_hex : (bytes : Bytes) → decode_hex (encode_hex bytes) ≡ some bytes
  pub decode_hex-nil : decode_hex [] ≡ some []

-- `BootstrapRefreshKS`.
abbrev pub bootstrap_refresh_ks : Bytes
bootstrap_refresh_ks =
    127 ∷ 26 ∷ 156 ∷ 35 ∷ 85 ∷ 226 ∷ 1 ∷ 155 ∷ 141 ∷ 68 ∷ 110 ∷ 16 ∷ 200 ∷ 58 ∷ 15 ∷ 113 ∷ 43 ∷ 144
    ∷ 214 ∷ 92 ∷ 74 ∷ 24 ∷ 61 ∷ 254 ∷ 98 ∷ 7 ∷ 169 ∷ 51 ∷ 190 ∷ 93 ∷ 33 ∷ 132 ∷ []

-- A record in a file: a missing file holds the empty record.
abbrev pub read_record : {A : Type 0} → Json A → A → File → Result A
read_record json empty missing = ok empty
read_record json empty unreadable = err "read file"
read_record json empty (content_of bytes) = or_err (json.unmarshal bytes) "unmarshal"

-- The record, or the empty one if the file gives none.
abbrev pub or_empty_record {ℓ} : {A : Type ℓ} → A → Result A → A
or_empty_record empty (ok a) = a
or_empty_record empty (err _) = empty
or_empty_record empty panic = empty

-- `os.WriteFile`, which may fail: the file, and the error.
abbrev pub write_record : {A : Type 0} → Json A → Bool → A → File → File × Result (Unit {0})
write_record json true a file = (content_of (json.marshal a), ok tt)
write_record json false a file = (file, err "write file")

-- What is written is read.
pub read_record-marshal :
    {A : Type 0} (json : Json A) (empty a : A)
    → read_record json empty (content_of (json.marshal a)) ≡ ok a
read_record-marshal json empty a = rw (json.unmarshal-marshal a) refl

pub encode_hex-full :
    ⦃hex : Hex⦄ → (bytes : Bytes) → is_empty bytes ≡ false → is_empty (hex.encode_hex bytes) ≡ false
encode_hex-full ⦃hex⦄ bytes full = go (hex.encode_hex bytes) (hex.decode_hex-encode_hex bytes)
  where
    go : (s : Bytes) → hex.decode_hex s ≡ some bytes → is_empty s ≡ false
    go [] e = let same : some [] ≡ some bytes = sym hex.decode_hex-nil ∙ e in cc (same, full)
    go (c ∷ s) e = refl
