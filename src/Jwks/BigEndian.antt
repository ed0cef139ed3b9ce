-- ===== src/Jwks/BigEndian.antt =====
-- math/big's `SetBytes` and `Bytes`, and the loop of `jwkToPublicKey` in Broker/token.go that reads
-- an exponent into a 64-bit integer.
use orionlink.Prelude.{
  ℕ, zero, suc, ◌+◌, ◌*◌, ◌/◌, ◌%◌, ◌≤◌, ◌<◌, ◌≡◌, refl, ap, ◌∙◌, false, [], ◌∷◌, Bytes, is_empty,
  arith,
}

-- The value of bytes that follow those of the value `acc`, high byte first.
unfoldable pub value : ℕ → Bytes → ℕ
value acc [] = acc
value acc (b ∷ bs) = value (acc * 256 + b) bs

-- `new(big.Int).SetBytes(bytes)`.
abbrev pub of_bytes : Bytes → ℕ
of_bytes bytes = value 0 bytes

-- The bytes of `n` before `acc`, without leading zeros, on fuel.
unfoldable pub digits : ℕ → ℕ → Bytes → Bytes
digits zero n acc = acc
digits (suc fuel) zero acc = acc
digits (suc fuel) (suc n) acc = digits fuel (suc n / 256) (suc n % 256 ∷ acc)

-- `n.Bytes()`: no number has more bytes than its value.
abbrev pub to_bytes : ℕ → Bytes
to_bytes n = digits n n []

-- `for _, b := range eBytes { e = e<<8 + int(b) }`, where `e` is the residue of the 64-bit integer.
unfoldable pub exponent : ℕ → Bytes → ℕ
exponent e [] = e
exponent e (b ∷ bs) = exponent ((e * 256 + b) % 18446744073709551616) bs

value-digits : (fuel n : ℕ) (acc : Bytes) → n ≤ fuel → value 0 (digits fuel n acc) ≡ value n acc
unfolding value digits
value-digits zero n acc h = ap (λ m. value m acc) zeroed
  where
    zeroed : 0 ≡ n
    zeroed = omega arith
value-digits (suc fuel) zero acc h = refl
value-digits (suc fuel) (suc n) acc h =
    value-digits fuel (suc n / 256) (suc n % 256 ∷ acc) (omega arith) ∙ ap (λ m. value m acc) whole
  where
    whole : suc n / 256 * 256 + suc n % 256 ≡ suc n
    whole = omega arith

exponent-digits :
    (fuel n : ℕ) (acc : Bytes)
    → n ≤ fuel
    → n < 18446744073709551616
    → exponent 0 (digits fuel n acc) ≡ exponent n acc
unfolding exponent digits
exponent-digits zero n acc h small = ap (λ m. exponent m acc) zeroed
  where
    zeroed : 0 ≡ n
    zeroed = omega arith
exponent-digits (suc fuel) zero acc h small = refl
exponent-digits (suc fuel) (suc n) acc h small =
    exponent-digits fuel (suc n / 256) (suc n % 256 ∷ acc) (omega arith) (omega arith)
    ∙ ap (λ m. exponent m acc) whole
  where
    whole : (suc n / 256 * 256 + suc n % 256) % 18446744073709551616 ≡ suc n
    whole = omega arith

-- The bytes of a number have its value, and there are some unless it is zero.
pub of_bytes-to_bytes : (n : ℕ) → of_bytes (to_bytes n) ≡ n
unfolding value
of_bytes-to_bytes n = value-digits n n [] (omega arith)

-- An exponent that fits in 64 bits is read from its bytes.
pub exponent-to_bytes : (n : ℕ) → n < 18446744073709551616 → exponent 0 (to_bytes n) ≡ n
unfolding exponent
exponent-to_bytes n small = exponent-digits n n [] (omega arith) small

pub to_bytes-full : (n : ℕ) → 0 < n → is_empty (to_bytes n) ≡ false
unfolding value
to_bytes-full n h = go (to_bytes n) (of_bytes-to_bytes n)
  where
    go : (bytes : Bytes) → of_bytes bytes ≡ n → is_empty bytes ≡ false
    go [] e = absurd (omega (arith, e))
    go (b ∷ bs) e = refl
