-- ===== src/Broker/SingleUse.antt =====
-- A Broker's code is redeemed at most once, however the operations of the store follow each other.
-- Each holds the store's lock, so concurrent calls are some sequence of whole operations.
use orionlink.Prelude.{
  ℕ, ◌≡◌, refl, Bool, true, false, Option, none, some, List, [], ◌∷◌, Bytes, bytes_eq, ltb, Result,
  ok, err, if◌then◌else◌, Dict, lookup, erase, lookup-insert, lookup-erase, lookup-erase_self,
  arith,
}
use orionlink.Broker.Store.{
  Tokens, AuthorizationCode, issue_code, taken, checked, get_code, delete_code,
}

-- A call of an operation of the store, with its arguments and what it draws.
pub data Operation : Type 0 where
  issuing : Option Bytes → Bytes → Bytes → Tokens → ℕ → Operation
  getting : ℕ → Bytes → Operation
  deleting : Bytes → Operation

unfoldable pub apply : Operation → Dict AuthorizationCode → Dict AuthorizationCode
apply (issuing drawn user_id rpid tokens now) codes =
    (issue_code codes drawn user_id rpid tokens now).0
apply (getting now code) codes = (get_code codes now code).0
apply (deleting code) codes = delete_code codes code

unfoldable pub run : List Operation → Dict AuthorizationCode → Dict AuthorizationCode
run [] codes = codes
run (o ∷ os) codes = run os (apply o codes)

-- No call of the sequence draws the code `c`.
abbrev pub Undrawn : Bytes → List Operation → Type 0
Undrawn c [] = Unit
Undrawn c (issuing (some d) _ _ _ _ ∷ os) = (bytes_eq d c ≡ false) × Undrawn c os
Undrawn c (issuing none _ _ _ _ ∷ os) = Undrawn c os
Undrawn c (getting _ _ ∷ os) = Undrawn c os
Undrawn c (deleting _ ∷ os) = Undrawn c os

stays_out :
    (c j : Bytes) (codes : Dict AuthorizationCode)
    → lookup c codes ≡ none
    → lookup c (erase j codes) ≡ none
stays_out c j codes h = ground (arith, lookup-erase j c codes)

checked-out :
    (c j : Bytes) (now : ℕ) (codes : Dict AuthorizationCode) (o : Option AuthorizationCode)
    → lookup c codes ≡ none
    → lookup c (checked codes now j o).0 ≡ none
checked-out c j now codes none h = h
checked-out c j now codes (some ac) h = go (ltb ac.expires_at now) ac.used
  where
    branch : Bool → Bool → Dict AuthorizationCode × Result AuthorizationCode
    branch expired used =
        if expired
        then (erase j codes, err "authorization code expired")
        else if used
        then (codes, err "authorization code already used")
        else (erase j codes, ok (taken ac))

    go : (expired used : Bool) → lookup c (branch expired used).0 ≡ none
    go true used = stays_out c j codes h
    go false true = h
    go false false = stays_out c j codes h

run-out :
    (c : Bytes) (os : List Operation) (codes : Dict AuthorizationCode)
    → Undrawn c os
    → lookup c codes ≡ none
    → lookup c (run os codes) ≡ none
unfolding run apply issue_code get_code delete_code
run-out c [] codes u h = h
run-out c (issuing (some d) user_id rpid tokens now ∷ os) codes (other, u) h =
    run-out c os _ u (rw (lookup-insert, other) h)
run-out c (issuing none _ _ _ _ ∷ os) codes u h = run-out c os codes u h
run-out c (getting now j ∷ os) codes u h =
    run-out c os _ u (checked-out c j now codes (lookup j codes) h)
run-out c (deleting j ∷ os) codes u h = run-out c os _ u (stays_out c j codes h)

checked-ok-out :
    (c : Bytes) (now : ℕ) (codes : Dict AuthorizationCode) (o : Option AuthorizationCode)
    (ac : AuthorizationCode)
    → (checked codes now c o).1 ≡ ok ac
    → lookup c (checked codes now c o).0 ≡ none
checked-ok-out c now codes none ac h = cc
checked-ok-out c now codes (some a) ac h = ground (arith, lookup-erase_self c codes)

-- After a `GetCode` that succeeded, and any sequence of calls in which the code is not drawn anew,
-- `GetCode` of the same code fails at any time.
pub get_code-once :
    (codes : Dict AuthorizationCode) (now now' : ℕ) (code : Bytes) (ac : AuthorizationCode)
    (os : List Operation)
    → (get_code codes now code).1 ≡ ok ac
    → Undrawn code os
    → (get_code (run os (get_code codes now code).0) now' code).1
      ≡ err "authorization code not found"
unfolding get_code
get_code-once codes now now' code ac os h u =
    rw (run-out code os _ u (checked-ok-out code now codes (lookup code codes) ac h)) refl
