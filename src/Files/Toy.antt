-- ===== src/Files/Toy.antt =====
-- Values of the parameters for the examples: a record as a list of texts, each behind its length.
use orionlink.Prelude.{◌≡◌, refl, ap, ◌∙◌, Option, none, some, List, [], ◌∷◌, Bytes, length}
use orionlink.Token.Toy.{fields, read_all, read_all-fields}
use orionlink.Files.{Json, Hex}

abbrev pub pack : List Bytes → Bytes
pack xs = length xs ∷ fields xs

abbrev pub unpack : Bytes → List Bytes
unpack [] = []
unpack (n ∷ bytes) = read_all n bytes

pub unpack-pack : (xs : List Bytes) → unpack (pack xs) ≡ xs
unpack-pack xs = read_all-fields xs

-- A type whose values are lists of texts.
abbrev pub via :
    {A : Type 0} (to : A → List Bytes) (of : List Bytes → A) → ((a : A) → of (to a) ≡ a) → Json A
via to of same = record {
  marshal = λ a. pack (to a);
  unmarshal = λ bytes. some (of (unpack bytes));
  unmarshal-marshal = λ a. ap some (ap of (unpack-pack (to a)) ∙ same a);
}

-- An optional text: the empty one for none.
abbrev pub write_option : Option Bytes → Bytes
write_option none = []
write_option (some x) = 0 ∷ x

abbrev pub read_option : Bytes → Option Bytes
read_option [] = none
read_option (c ∷ x) = some x

pub read_option-write_option : (o : Option Bytes) → read_option (write_option o) ≡ o
read_option-write_option none = refl
read_option-write_option (some x) = refl

-- Bytes as their own digits.
instance abbrev pub toy_hex : Hex
toy_hex = record {
  encode_hex = λ bytes. bytes;
  decode_hex = λ s. some s;
  decode_hex-encode_hex = λ bytes. refl;
  decode_hex-nil = refl;
}
