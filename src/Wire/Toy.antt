-- ===== src/Wire/Toy.antt =====
-- A value of the parameter for the examples: base64 as a shift of each byte above all others.
use orionlink.Prelude.{
  ◌+◌, ◌-◌, ◌≡◌, refl, Option, some, [], ◌∷◌, ◌++◌, Bytes, ltb, if◌then◌else◌, arith, drop, ap, ap₂,
}
use orionlink.Wire.{Codec, acid_text}

abbrev pub shift : Bytes → Bytes
shift [] = []
shift (x ∷ xs) = (x + 1000) ∷ shift xs

abbrev pub unshift : Bytes → Bytes
unshift [] = []
unshift (x ∷ xs) = (x - 1000) ∷ unshift xs

pub unshift-shift : (xs : Bytes) → unshift (shift xs) ≡ xs
unshift-shift [] = refl
unshift-shift (x ∷ xs) = ap₂ ◌∷◌ (omega arith) (unshift-shift xs)

-- The leading shifted bytes, and the rest.
unfoldable pub shifted : Bytes → Bytes
shifted [] = []
shifted (x ∷ xs) = let rest = shifted xs in if ltb x 1000 then [] else x ∷ rest

unfoldable pub unshifted : Bytes → Bytes
unshifted [] = []
unshifted (x ∷ xs) = let rest = unshifted xs in if ltb x 1000 then x ∷ xs else rest

shifted-shift : (xs ys : Bytes) → shifted (shift xs ++ (34 ∷ ys)) ≡ shift xs
unfolding shifted
shifted-shift [] ys = refl
shifted-shift (x ∷ xs) ys = ground (arith, shifted-shift xs ys)

unshifted-shift : (xs ys : Bytes) → unshifted (shift xs ++ (34 ∷ ys)) ≡ 34 ∷ ys
unfolding unshifted
unshifted-shift [] ys = refl
unshifted-shift (x ∷ xs) ys = ground (arith, unshifted-shift xs ys)

unfoldable pub parse : Bytes → Option (Bytes × Bytes)
unfolding shifted unshifted
parse bytes = let rest = drop 11 bytes in some (shifted rest, shifted (drop 12 (unshifted rest)))

pub parse-acid_text :
    (x y : Bytes) → parse (acid_text (shift x) (shift y)) ≡ some (shift x, shift y)
unfolding parse
parse-acid_text x y = rw (shifted-shift x, unshifted-shift x, shifted-shift y) refl

instance abbrev pub toy_codec : Codec
toy_codec = record {
  encode = shift;
  decode = λ s. some (unshift s);
  decode-encode = λ bytes. ap some (unshift-shift bytes);
  encode-nil = refl;
  parse_acid = parse;
  parse_acid-acid_text = parse-acid_text;
}
