-- ===== src/Idp/EmpKeys.antt =====
-- The IdP's pool of ephemeral keys: `handleGetIdPEmpKey` of IdP/handler.go and `getEmpKey` of
-- IdP/storage.go.
pub mod RoundRobin
use orionlink.Prelude.{
  ℕ, zero, suc, ◌+◌, ◌-◌, ◌*◌, ◌/◌, ◌%◌, ◌≤◌, ◌<◌, ◌≡◌, ◌≢◌, refl, sym, ap, ◌∙◌, Bool, true, false,
  Option, none, some, List, [], ◌∷◌, Bytes, Slice, bytes_eq, bytes_eq_iff, Bool-cases, inl, inr,
  length, leb, ◌==◌, Result, ok, err, panic, ◌>>=◌, rename_err, if◌then◌else◌, Dict, lookup, insert,
  lookup-insert, or_err, arith, bytes_eq_refl, lookup-insert_self,
}
use orionlink.Ecc.{Bls, Scalar, G1}
use orionlink.Wire.{point_to_bytes}
use orionlink.Cred.{Rng, supply}
use orionlink.Session.{EphemeralKey, generate_emp_key}
use orionlink.Session.Agreement.{public_key}
use orionlink.Protocol.{IdpEmpKeyResponse}

-- The decimal digits of `n` before `acc`, without leading zeros, on fuel.
unfoldable decimal : ℕ → ℕ → Bytes → Bytes
decimal zero n acc = acc
decimal (suc fuel) zero acc = acc
decimal (suc fuel) (suc n) acc = decimal fuel (suc n / 10) ((suc n % 10 + 48) ∷ acc)

-- `strconv.Itoa(n)`, of a number that is not negative: no number has more digits than its value.
unfoldable pub itoa : ℕ → Bytes
unfolding decimal
itoa zero = 48 ∷ []
itoa (suc n) = decimal (suc n) (suc n) []

-- The number that digits mean, behind those of `acc`.
meaning : ℕ → Bytes → ℕ
meaning acc [] = acc
meaning acc (c ∷ cs) = meaning (acc * 10 + (c - 48)) cs

meaning-decimal :
    (fuel n : ℕ) (acc : Bytes) → n ≤ fuel → meaning 0 (decimal fuel n acc) ≡ meaning n acc
unfolding decimal meaning
meaning-decimal zero n acc h = ap (λ m. meaning m acc) zeroed
  where
    zeroed : 0 ≡ n
    zeroed = omega arith
meaning-decimal (suc fuel) zero acc h = refl
meaning-decimal (suc fuel) (suc n) acc h =
    meaning-decimal fuel (suc n / 10) ((suc n % 10 + 48) ∷ acc) (omega arith)
    ∙ ap (λ m. meaning m acc) whole
  where
    whole : suc n / 10 * 10 + (suc n % 10 + 48 - 48) ≡ suc n
    whole = omega arith

meaning-itoa : (n : ℕ) → meaning 0 (itoa n) ≡ n
unfolding meaning decimal itoa
meaning-itoa zero = refl
meaning-itoa (suc n) = meaning-decimal (suc n) (suc n) [] (omega arith)

-- Two numbers have different digits.
pub itoa-ne : (m n : ℕ) → m ≢ n → bytes_eq (itoa m) (itoa n) ≡ false
itoa-ne m n h = elim (Bool-cases (bytes_eq (itoa m) (itoa n))) [
  | inl same ↦ absurd (
      h (
        sym (meaning-itoa m)
        ∙ ap (meaning 0) ((bytes_eq_iff (itoa m) (itoa n)).0 same)
        ∙ meaning-itoa n))
  | inr other ↦ other
]

module _ ⦃b : Bls⦄ where
  -- The pool, `store.empkeys`, and `store.EmpKeyIdx`.
  pub record EmpKeyPool : Type 0 where
    pub keys : Dict EphemeralKey
    pub idx : ℕ

  -- `for i := 0; i < n; i++ { keys[strconv.Itoa(i)] = ... }`
  unfoldable pub fill : ℕ → Rng → Result (Dict EphemeralKey)
  fill zero rng = ok []
  fill (suc n) rng = do
    keys ← fill n rng
    (sk, pk) ← generate_emp_key (rng n)
    ok (insert (itoa n) (record { id = itoa n; sk = some sk; pk = some pk }) keys)

  unfoldable pub get_emp_key : Dict EphemeralKey → Bytes → Result EphemeralKey
  get_emp_key keys id = or_err (lookup id keys) "key not found"

  -- The answer for an index, behind the lookup.
  abbrev pub hand_out :
      Dict EphemeralKey → ℕ → Result EphemeralKey → EmpKeyPool × Result IdpEmpKeyResponse
  hand_out keys i (ok key) = (
    record { keys = keys; idx = i + 1 },
    ok (record { kid = key.id; pk = point_to_bytes b.g1 key.pk }),
  )
  hand_out keys i (err _) = (record { keys = keys; idx = i }, err "empheral key not found")
  hand_out keys i panic = (record { keys = keys; idx = i }, panic)

  -- `if s.store.EmpKeyIdx >= len(keys) { s.store.EmpKeyIdx = 0 }`, and the lookup.
  abbrev pub serve : Dict EphemeralKey → ℕ → EmpKeyPool × Result IdpEmpKeyResponse
  serve keys idx =
      let i = if leb (length keys) idx then 0 else idx in
      hand_out keys i (get_emp_key keys (itoa i))

  abbrev pub refilled :
      EmpKeyPool → Result (Dict EphemeralKey) → EmpKeyPool × Result IdpEmpKeyResponse
  refilled s (ok keys) = serve keys 0
  refilled s (err e) = (s, err e)
  refilled s panic = (s, panic)

  abbrev pub no_entries : Dict EphemeralKey → Bool
  no_entries [] = true
  no_entries (_ ∷ _) = false

  -- `handleGetIdPEmpKey`; a failed draw ends the process.
  unfoldable pub handle_get_idp_emp_key : EmpKeyPool → Rng → EmpKeyPool × Result IdpEmpKeyResponse
  handle_get_idp_emp_key s rng =
      if no_entries s.keys then refilled s (fill 100 rng) else serve s.keys s.idx
