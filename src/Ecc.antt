-- ===== src/Ecc.antt =====
-- What the program uses of github.com/cloudflare/circl/ecc/bls12381: the scalar field, the two
-- source groups, the pairing, and their encodings. That package is not part of the repository, so
-- it is a parameter: a record of its operations and of the documented laws. The curve's groups
-- have prime order, so the scalars are a field and the pairing is not degenerate.
pub mod Laws
pub mod Toy
use orionlink.Prelude.{
  true, ℕ, ◌≡◌, ◌≢◌, ◌↔◌, ◌<◌, Bool, Option, some, Bytes, length, Result, ok, err, panic,
  if◌then◌else◌,
}

-- `bls12381.Scalar`.
pub record Field : Type 1 where
  pub Scalar : Type 0
  pub zero : Scalar
  pub one : Scalar
  pub add : Scalar → Scalar → Scalar
  pub mul : Scalar → Scalar → Scalar
  pub neg : Scalar → Scalar
  -- `Inv`.
  pub inv : Scalar → Scalar
  pub add_comm : (x y : Scalar) → add x y ≡ add y x
  pub add_assoc : (x y z : Scalar) → add (add x y) z ≡ add x (add y z)
  pub zero-add : (x : Scalar) → add zero x ≡ x
  pub neg-add : (x : Scalar) → add (neg x) x ≡ zero
  pub mul_comm : (x y : Scalar) → mul x y ≡ mul y x
  pub mul_assoc : (x y z : Scalar) → mul (mul x y) z ≡ mul x (mul y z)
  pub one-mul : (x : Scalar) → mul one x ≡ x
  pub inv-mul : (x : Scalar) → x ≢ zero → mul (inv x) x ≡ one
  pub mul-add : (x y z : Scalar) → mul x (add y z) ≡ add (mul x y) (mul x z)
  -- `SetBytes`, which reduces any byte string, and `MarshalBinary`, `UnmarshalBinary`.
  pub set_bytes : Bytes → Scalar
  pub marshal : Scalar → Bytes
  pub unmarshal : Bytes → Option Scalar
  pub unmarshal-marshal : (a : Scalar) → unmarshal (marshal a) ≡ some a

-- `bls12381.G1` and `bls12381.G2`: a group of points with the scalars acting on it.
pub record Curve (F : Field) : Type 1 where
  pub Point : Type 0
  pub zero : Point
  pub add : Point → Point → Point
  pub neg : Point → Point
  -- `ScalarMult`.
  pub smul : F.Scalar → Point → Point
  -- `G1Generator`, `G2Generator`.
  pub gen : Point
  pub is_equal : Point → Point → Bool
  pub add_assoc : (p q r : Point) → add (add p q) r ≡ add p (add q r)
  pub add_comm : (p q : Point) → add p q ≡ add q p
  pub zero-add : (p : Point) → add zero p ≡ p
  pub neg-add : (p : Point) → add (neg p) p ≡ zero
  pub one-smul : (p : Point) → smul F.one p ≡ p
  pub mul-smul : (a b : F.Scalar) (p : Point) → smul (F.mul a b) p ≡ smul a (smul b p)
  pub add-smul : (a b : F.Scalar) (p : Point) → smul (F.add a b) p ≡ add (smul a p) (smul b p)
  pub smul-add : (a : F.Scalar) (p q : Point) → smul a (add p q) ≡ add (smul a p) (smul a q)
  pub is_equal_iff : (p q : Point) → (is_equal p q ≡ true) ↔ (p ≡ q)
  -- `BytesCompressed`, `SetBytes`, `G1SizeCompressed`.
  pub compress : Point → Bytes
  pub set_bytes : Bytes → Option Point
  -- What the receiver of a `SetBytes` that failed holds.
  pub failed : Bytes → Point
  pub size : ℕ
  pub size-long : 4 < size
  pub set_bytes-compress : (p : Point) → set_bytes (compress p) ≡ some p
  pub length-compress : (p : Point) → length (compress p) ≡ size

pub record Bls : Type 1 where
  pub field : Field
  pub g1 : Curve field
  pub g2 : Curve field
  pub Gt : Type 0
  -- `Pair` and `Gt.IsEqual`.
  pub pair : g1.Point → g2.Point → Gt
  pub gt_is_equal : Gt → Gt → Bool
  pub gt_is_equal_iff : (x y : Gt) → (gt_is_equal x y ≡ true) ↔ (x ≡ y)
  pub pair-smul :
      (a : field.Scalar) (p : g1.Point) (q : g2.Point) → pair (g1.smul a p) q ≡ pair p (g2.smul a q)
  pub pair_injective : (p q : g1.Point) → pair p g2.gen ≡ pair q g2.gen → p ≡ q
  -- What the array of a slice with these bytes holds behind them, up to the slice's capacity, when
  -- it is sliced to the size of a point: any bytes, since the capacity is up to who made the slice.
  pub behind : Bytes → Bytes

abbrev pub Scalar : ⦃b : Bls⦄ → Type 0
Scalar ⦃b⦄ = b.field.Scalar

abbrev pub G1 : ⦃b : Bls⦄ → Type 0
G1 ⦃b⦄ = b.g1.Point

abbrev pub G2 : ⦃b : Bls⦄ → Type 0
G2 ⦃b⦄ = b.g2.Point
