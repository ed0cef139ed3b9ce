-- ===== src/Prelude/Outcomes.antt =====
-- How a Go function ends: with its value, with an error, or by a panic. An error is named by the
-- fixed part of its message.
use Prim.Native.String.{String}
use mathlib.Core.Path.{◌≡◌, refl, subst}
use mathlib.Core.Bool.{Bool, true, false}
use mathlib.Core.Option.{Option, none, some}

pub data Result {ℓ} (Value : Type ℓ) : Type ℓ where
  panic : Result Value
  err : String → Result Value
  ok : Value → Result Value

-- What follows runs on a value only: an error and a panic end the function.
infixl 5 ◌>>=◌
abbrev pub ◌>>=◌ {κ ℓ} :
    {Value : Type κ} {Next : Type ℓ} → Result Value → (Value → Result Next) → Result Next
panic >>= next = panic
err message >>= next = err message
ok value >>= next = next value

-- The same behind a call for its error alone.
infixl 5 ◌>>◌
abbrev pub ◌>>◌ {ℓ} : {Next : Type ℓ} → Result (Unit {0}) → Result Next → Result Next
first >> next = first >>= λ done. next

-- `if cond { return err }`
abbrev pub fail_if : Bool → String → Result (Unit {0})
fail_if true e = err e
fail_if false e = ok tt

module _ {ℓ} {A : Type ℓ} where
  abbrev pub or_err : Option A → String → Result A
  or_err none e = err e
  or_err (some a) e = ok a

  -- A use of a pointer that may be nil.
  abbrev pub deref : Option A → Result A
  deref none = panic
  deref (some a) = ok a

  -- `v, err := f(); if err != nil { return errors.New(e) }`
  abbrev pub rename_err : String → Result A → Result A
  rename_err e (ok a) = ok a
  rename_err e (err _) = err e
  rename_err e panic = panic

  pub ok_injective : {a a' : A} → ok a ≡ ok a' → a ≡ a'
  ok_injective h = cc h

  -- A chain that ends with a value has one behind its first call, and goes on from there.
  pub >>=-eq-ok {κ} :
      {B : Type κ} (call : Result A) (next : A → Result B) {result : B}
      → (call >>= next) ≡ ok result
      → (value : A) × (call ≡ ok value) × (next value ≡ ok result)
  >>=-eq-ok panic next h = cc
  >>=-eq-ok (err message) next h = cc
  >>=-eq-ok (ok value) next h = (value, refl, h)

  pub or_err-eq-ok : (o : Option A) (e : String) {a : A} → or_err o e ≡ ok a → o ≡ some a
  or_err-eq-ok none e h = cc
  or_err-eq-ok (some a) e h = cc

  pub rename_err-eq-ok : (e : String) (r : Result A) {a : A} → rename_err e r ≡ ok a → r ≡ ok a
  rename_err-eq-ok e (ok a) h = h
  rename_err-eq-ok e (err _) h = cc
  rename_err-eq-ok e panic h = cc

pub fail_if-eq-ok : (c : Bool) (e : String) → fail_if c e ≡ ok tt → c ≡ false
fail_if-eq-ok true e h = cc
fail_if-eq-ok false e h = refl

-- The value, if there is one, has the property; a chain has it if what follows does.
pub record Always {ℓ κ} {A : Type ℓ} (P : A → Type κ) (r : Result A) : Type (ℓ ⊔ κ) where
  pub at_ok : (a : A) → r ≡ ok a → P a

pub ok-Always {ℓ κ} : {A : Type ℓ} {P : A → Type κ} {a : A} → P a → Always P (ok a)
ok-Always {P = P} {a = a} p = record { at_ok = λ a' e. subst P (cc e) p }

pub >>=-Always {α β κ} :
    {A : Type α} {B : Type β} {P : B → Type κ} (r : Result A) (next : A → Result B)
    → ((a : A) → r ≡ ok a → Always P (next a))
    → Always P (r >>= next)
>>=-Always panic next h = record { at_ok = λ a e. cc e }
>>=-Always (err _) next h = record { at_ok = λ a e. cc e }
>>=-Always (ok x) next h = h x refl
