-- ===== src/Idp/EmpKeys/RoundRobin.antt =====
-- The pool hands its 100 keys out in turn.
use orionlink.Prelude.{
  ℕ, zero, suc, ◌+◌, ◌%◌, ◌≤◌, ◌<◌, ◌≡◌, ◌⊎◌, inl, inr, refl, sym, ap, ◌∙◌, false, none, some, [],
  ◌∷◌, Bytes, bytes_eq, length, leb, Result, ok, if◌then◌else◌, Dict, lookup, insert, lookup-insert,
  lookup-insert_self, arith,
}
use orionlink.Ecc.{Bls, Scalar}
use orionlink.Wire.{point_to_bytes}
use orionlink.Cred.{supply}
use orionlink.Session.{EphemeralKey, generate_emp_key}
use orionlink.Session.Agreement.{public_key}
use orionlink.Protocol.{IdpEmpKeyResponse}
use orionlink.Idp.EmpKeys.{
  no_entries, EmpKeyPool, itoa, itoa-ne, fill, get_emp_key, serve, handle_get_idp_emp_key,
}

split : (i n : ℕ) → i ≤ n → (i ≡ n) ⊎ (i < n)
split i n h = ground arith

-- A key that is new makes a map longer by one.
length-insert {ℓ} :
    {V : Type ℓ} (k : Bytes) (v : V) (d : Dict V)
    → lookup k d ≡ none
    → length (insert k v d) ≡ suc (length d)
unfolding lookup insert
length-insert k v [] h = refl
length-insert k v ((j, w) ∷ d) h = ground (arith, length-insert k v d)

module _ ⦃b : Bls⦄ (f : ℕ → Scalar) where
  -- The key of the number `i`.
  abbrev pub key_at : ℕ → EphemeralKey
  key_at i = record { id = itoa i; sk = some (f i); pk = some (public_key (f i)) }

  abbrev pub filled : ℕ → Dict EphemeralKey
  filled zero = []
  filled (suc n) = insert (itoa n) (key_at n) (filled n)

  fill-filled : (n : ℕ) → fill n (supply f) ≡ ok (filled n)
  unfolding fill generate_emp_key
  fill-filled zero = refl
  fill-filled (suc n) = rw (fill-filled n) refl

  lookup-late : (n i : ℕ) → n ≤ i → lookup (itoa i) (filled n) ≡ none
  unfolding lookup
  lookup-late zero i h = refl
  lookup-late (suc n) i h =
      lookup-insert (itoa n) (itoa i) (key_at n) (filled n)
      ∙ rw (other, lookup-late n i (omega arith)) refl
    where
      other : bytes_eq (itoa n) (itoa i) ≡ false
      other = itoa-ne n i (λ e. omega (arith, e))

  pub lookup-filled : (n i : ℕ) → i < n → lookup (itoa i) (filled n) ≡ some (key_at i)
  lookup-filled zero i h = absurd (omega arith)
  lookup-filled (suc n) i h = elim (split i n (omega arith)) [
    | inl e ↦ rw e (lookup-insert_self (itoa n) (key_at n) (filled n))
    | inr lt ↦
        lookup-insert (itoa n) (itoa i) (key_at n) (filled n)
        ∙ rw (itoa-ne n i (λ e. omega (arith, e)), lookup-filled n i lt) refl
  ]

  length-filled : (n : ℕ) → length (filled n) ≡ n
  length-filled zero = refl
  length-filled (suc n) =
      length-insert (itoa n) (key_at n) (filled n) (lookup-late n n (omega arith))
      ∙ ap suc (length-filled n)

  abbrev pub pool : ℕ → EmpKeyPool
  pool idx = record { keys = filled 100; idx = idx }

  abbrev pub answer_at : ℕ → Result IdpEmpKeyResponse
  answer_at i = ok (record { kid = itoa i; pk = some (b.g1.compress (public_key (f i))) })

  entries : (n : ℕ) (keys : Dict EphemeralKey) → length keys ≡ suc n → no_entries keys ≡ false
  entries n [] e = absurd (omega (arith, e))
  entries n (k ∷ keys) e = refl

  -- One call on a pool that is filled.
  step :
      (keys : Dict EphemeralKey) (idx : ℕ)
      → keys ≡ filled 100
      → idx ≤ 100
      → serve keys idx ≡ (record { keys = keys; idx = idx % 100 + 1 }, answer_at (idx % 100))
  unfolding get_emp_key point_to_bytes
  step keys idx e h =
      rw (turned, ap (lookup (itoa (idx % 100))) e ∙ lookup-filled 100 (idx % 100) (omega arith))
        refl
    where
      turned : (if leb (length keys) idx then 0 else idx) ≡ idx % 100
      turned = ground (arith, ap length e ∙ length-filled 100)

  -- The pool behind a number of calls.
  unfoldable pub pool_after : ℕ → EmpKeyPool → EmpKeyPool
  pool_after zero s = s
  pool_after (suc n) s = (handle_get_idp_emp_key (pool_after n s) (supply f)).0

  call :
      (keys : Dict EphemeralKey) (idx : ℕ)
      → keys ≡ filled 100
      → idx ≤ 100
      → handle_get_idp_emp_key (record { keys = keys; idx = idx }) (supply f)
        ≡ (record { keys = keys; idx = idx % 100 + 1 }, answer_at (idx % 100))
  unfolding handle_get_idp_emp_key
  call keys idx e h = rw (entries 99 keys (ap length e ∙ length-filled 100)) (step keys idx e h)

  first_call :
      (idx : ℕ) (keys : Dict EphemeralKey)
      → keys ≡ filled 100
      → handle_get_idp_emp_key (record { keys = []; idx = idx }) (supply f)
        ≡ (record { keys = keys; idx = 1 }, answer_at 0)
  unfolding handle_get_idp_emp_key
  first_call idx keys e = rw (fill-filled 100, sym e) (step keys 0 e (omega arith))

  after_calls :
      (n idx : ℕ) (keys : Dict EphemeralKey)
      → keys ≡ filled 100
      → pool_after (suc n) (record { keys = []; idx = idx })
        ≡ record { keys = keys; idx = n % 100 + 1 }
  unfolding pool_after
  after_calls zero idx keys e = ap (λ r. r.0) (first_call idx keys e)
  after_calls (suc n) idx keys e =
      ap (λ s. (handle_get_idp_emp_key s (supply f)).0) (after_calls n idx keys e)
      ∙ ap (λ r. r.0) (call keys (n % 100 + 1) e (omega arith))
      ∙ ap (λ i. record { keys = keys; idx = i }) turn
    where
      turn : (n % 100 + 1) % 100 + 1 ≡ suc n % 100 + 1
      turn = omega arith

  -- A pool that starts empty never fails: behind `n` calls it answers with the key whose number is
  -- `n` modulo 100, whose secret and public key are then in the pool under that number.
  pub handle_get_idp_emp_key-round :
      (n idx : ℕ)
      → let s = pool_after n (record { keys = []; idx = idx }) in
        let call' = handle_get_idp_emp_key s (supply f) in
        (call'.1 ≡ answer_at (n % 100))
        × (lookup (itoa (n % 100)) call'.0.keys ≡ some (key_at (n % 100)))
  handle_get_idp_emp_key-round zero idx =
      unfold pool_after in
      (
        ap (λ r. r.1) (first_call idx (filled 100) refl),
        ap (λ r. lookup (itoa 0) r.0.keys) (first_call idx (filled 100) refl)
            ∙ lookup-filled 100 0 (omega arith),
      )
  handle_get_idp_emp_key-round (suc n) idx = (
    ap (λ s. (handle_get_idp_emp_key s (supply f)).1) (after_calls n idx (filled 100) refl)
        ∙ ap (λ r. r.1) (call (filled 100) (n % 100 + 1) refl (omega arith))
        ∙ ap answer_at turn,
    ap (λ s. lookup (itoa (suc n % 100)) (handle_get_idp_emp_key s (supply f)).0.keys)
          (after_calls n idx (filled 100) refl)
        ∙ ap (λ r. lookup (itoa (suc n % 100)) r.0.keys)
            (call (filled 100) (n % 100 + 1) refl (omega arith))
        ∙ lookup-filled 100 (suc n % 100) (omega arith),
  )
    where
      turn : (n % 100 + 1) % 100 ≡ suc n % 100
      turn = omega arith
