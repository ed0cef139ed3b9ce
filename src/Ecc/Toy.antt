-- ===== src/Ecc/Toy.antt =====
-- A value of the parameter: the field of three elements, acting on itself. It stands in the
-- examples for the curve.
use orionlink.Prelude.{
  ◌≡◌, ◌≢◌, refl, ◌↔◌, Bool, true, false, Option, none, some, Bytes, [], ◌∷◌, length, arith,
  if◌then◌else◌, ◌==◌, ◌<◌,
}
use orionlink.Ecc.{Field, Curve, Bls}

pub data F3 : Type 0 where
  n0 n1 n2 : F3

abbrev pub add : F3 → F3 → F3
add n0 b = b
add n1 n0 = n1
add n1 n1 = n2
add n1 n2 = n0
add n2 n0 = n2
add n2 n1 = n0
add n2 n2 = n1

abbrev pub neg : F3 → F3
neg n0 = n0
neg n1 = n2
neg n2 = n1

abbrev pub mul : F3 → F3 → F3
mul n0 b = n0
mul n1 b = b
mul n2 b = neg b

abbrev pub eq : F3 → F3 → Bool
eq n0 n0 = true
eq n1 n1 = true
eq n2 n2 = true
eq n0 _ = false
eq n1 _ = false
eq n2 _ = false

abbrev pub to_bytes : F3 → Bytes
to_bytes n0 = 0 ∷ 0 ∷ 0 ∷ 0 ∷ 0 ∷ []
to_bytes n1 = 1 ∷ 0 ∷ 0 ∷ 0 ∷ 0 ∷ []
to_bytes n2 = 2 ∷ 0 ∷ 0 ∷ 0 ∷ 0 ∷ []

abbrev pub byte : Bytes → F3
byte [] = n0
byte (x ∷ xs) = if x == 0 then n0 else if x == 1 then n1 else n2

abbrev pub of_bytes : Bytes → Option F3
of_bytes [] = none
of_bytes (x ∷ xs) = some (byte (x ∷ xs))

pub add_assoc : (a b c : F3) → add (add a b) c ≡ add a (add b c)
add_assoc a b c = ground arith

pub add_comm : (a b : F3) → add a b ≡ add b a
add_comm a b = ground arith

pub neg-add : (a : F3) → add (neg a) a ≡ n0
neg-add a = ground arith

pub mul_assoc : (a b c : F3) → mul (mul a b) c ≡ mul a (mul b c)
mul_assoc a b c = ground arith

pub mul_comm : (a b : F3) → mul a b ≡ mul b a
mul_comm a b = ground arith

pub mul-add : (a b c : F3) → mul a (add b c) ≡ add (mul a b) (mul a c)
mul-add a b c = ground arith

pub add-mul : (a b c : F3) → mul (add a b) c ≡ add (mul a c) (mul b c)
add-mul a b c = ground arith

pub inv-mul : (a : F3) → a ≢ n0 → mul a a ≡ n1
inv-mul a h = ground arith

pub of_bytes-to_bytes : (a : F3) → of_bytes (to_bytes a) ≡ some a
of_bytes-to_bytes n0 = refl
of_bytes-to_bytes n1 = refl
of_bytes-to_bytes n2 = refl

pub eq_iff : (a b : F3) → (eq a b ≡ true) ↔ (a ≡ b)
eq_iff a b = ground arith

pub length-to_bytes : (a : F3) → length (to_bytes a) ≡ 5
length-to_bytes n0 = refl
length-to_bytes n1 = refl
length-to_bytes n2 = refl

pub pair-smul : (a p q : F3) → mul (mul a p) q ≡ mul p (mul a q)
pair-smul a p q = ground arith

pub pair_injective : (p q : F3) → mul p n1 ≡ mul q n1 → p ≡ q
pair_injective p q h = ground arith

pub size-long : 4 < 5
size-long = omega arith

abbrev pub toy_field : Field
toy_field = record {
  Scalar = F3;
  zero = n0;
  one = n1;
  add = add;
  mul = mul;
  neg = neg;
  inv = λ a. a;
  add_assoc = add_assoc;
  add_comm = add_comm;
  zero-add = λ a. refl;
  neg-add = neg-add;
  mul_assoc = mul_assoc;
  mul_comm = mul_comm;
  one-mul = λ a. refl;
  mul-add = mul-add;
  inv-mul = inv-mul;
  set_bytes = byte;
  marshal = to_bytes;
  unmarshal = of_bytes;
  unmarshal-marshal = of_bytes-to_bytes;
}

abbrev pub toy_curve : Curve toy_field
toy_curve = record {
  Point = F3;
  zero = n0;
  add = add;
  neg = neg;
  smul = mul;
  gen = n1;
  is_equal = eq;
  add_assoc = add_assoc;
  add_comm = add_comm;
  zero-add = λ a. refl;
  neg-add = neg-add;
  one-smul = λ a. refl;
  mul-smul = mul_assoc;
  add-smul = add-mul;
  smul-add = mul-add;
  is_equal_iff = eq_iff;
  compress = to_bytes;
  set_bytes = of_bytes;
  failed = λ bytes. n0;
  size = 5;
  size-long = size-long;
  set_bytes-compress = of_bytes-to_bytes;
  length-compress = length-to_bytes;
}

instance abbrev pub toy_bls : Bls
toy_bls = record {
  field = toy_field;
  g1 = toy_curve;
  g2 = toy_curve;
  Gt = F3;
  pair = mul;
  gt_is_equal = eq;
  gt_is_equal_iff = eq_iff;
  pair-smul = pair-smul;
  pair_injective = pair_injective;
  behind = λ bytes. [];
}
