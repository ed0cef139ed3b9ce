-- ===== src/Broker/Refines.antt =====
-- The store of the Broker's codes as a specification: a function from codes to the data that is
-- open, which each operation changes at its own code only.
use mathlib.Core.Path.{fun_ext}
use orionlink.Prelude.{
  ℕ, ◌+◌, ◌≡◌, refl, ap, ap₂, ◌∙◌, false, Option, none, some, List, [], ◌∷◌, Bytes, bytes_eq, ltb,
  Result, ok, err, if◌then◌else◌, Dict, lookup, lookup-insert, lookup-erase, arith, bytes_eq_iff,
}
use orionlink.Broker.Store.{AuthorizationCode, issue_code, taken, checked, get_code, delete_code}
use orionlink.Broker.SingleUse.{Operation, issuing, getting, deleting}

-- The codes that are open, with their data.
abbrev pub Open : Type 0
Open = Bytes → Option AuthorizationCode

abbrev pub put : Bytes → Option AuthorizationCode → Open → Open
put code entry open_codes j = if bytes_eq code j then entry else open_codes j

-- What an operation answers.
pub data Answer : Type 0 where
  drawn : Result Bytes → Answer
  got : Result AuthorizationCode → Answer
  done : Answer

-- The store's operation with its answer.
unfoldable pub perform : Operation → Dict AuthorizationCode → Dict AuthorizationCode × Answer
perform (issuing c user_id rpid tokens now) codes =
    let r = issue_code codes c user_id rpid tokens now in (r.0, drawn r.1)
perform (getting now code) codes = let r = get_code codes now code in (r.0, got r.1)
perform (deleting code) codes = (delete_code codes code, done)

-- The answer to a redemption, by the data that is open.
abbrev pub redeemed : ℕ → Option AuthorizationCode → Result AuthorizationCode
redeemed now none = err "authorization code not found"
redeemed now (some ac) =
    if ltb ac.expires_at now
    then err "authorization code expired"
    else if ac.used
    then err "authorization code already used"
    else ok (taken ac)

-- What stays open of a code that is redeemed: data that is marked as used and not expired.
abbrev pub kept : ℕ → Option AuthorizationCode → Option AuthorizationCode
kept now none = none
kept now (some ac) = if ltb ac.expires_at now then none else if ac.used then some ac else none

-- The specification of an operation.
abbrev pub specified : Operation → Open → Open × Answer
specified (issuing none user_id rpid tokens now) o = (o, drawn (err "random source failed"))
specified (issuing (some c) user_id rpid tokens now) o = (
  put c
      (some (record {
        code = c;
        user_id = user_id;
        rpid = rpid;
        tokens = tokens;
        created_at = now;
        expires_at = now + 30000;
        used = false;
      }))
      o,
  drawn (ok c),
)
specified (getting now code) o = (put code (kept now (o code)) o, got (redeemed now (o code)))
specified (deleting code) o = (put code none o, done)

-- The answers to a sequence of operations, and what it leaves.
unfoldable pub perform_all :
    List Operation → Dict AuthorizationCode → Dict AuthorizationCode × List Answer
perform_all [] codes = (codes, [])
perform_all (o ∷ os) codes =
    let first = perform o codes in let rest = perform_all os first.0 in (rest.0, first.1 ∷ rest.1)

unfoldable pub specified_all : List Operation → Open → Open × List Answer
specified_all [] o = (o, [])
specified_all (x ∷ xs) o =
    let first = specified x o in let rest = specified_all xs first.0 in (rest.0, first.1 ∷ rest.1)

abbrev pub view : Dict AuthorizationCode → Open
view codes j = lookup j codes

checked-refines :
    (codes : Dict AuthorizationCode) (now : ℕ) (code j : Bytes) (o : Option AuthorizationCode)
    → lookup code codes ≡ o
    → (lookup j (checked codes now code o).0 ≡ put code (kept now o) (view codes) j)
      × ((checked codes now code o).1 ≡ redeemed now o)
checked-refines codes now code j none e = (ground (arith, bytes_eq_iff code j), refl)
checked-refines codes now code j (some ac) e =
    (ground (arith, bytes_eq_iff code j, lookup-erase code j codes), ground arith)

perform-refines :
    (o : Operation) (codes : Dict AuthorizationCode)
    → ((j : Bytes) → view (perform o codes).0 j ≡ (specified o (view codes)).0 j)
      × ((perform o codes).1 ≡ (specified o (view codes)).1)
unfolding perform issue_code get_code delete_code
perform-refines (issuing none user_id rpid tokens now) codes = (λ j. refl, refl)
perform-refines (issuing (some c) user_id rpid tokens now) codes =
    (λ j. lookup-insert c j _ codes, refl)
perform-refines (getting now code) codes = (
  λ j. (checked-refines codes now code j (lookup code codes) refl).0,
  ap got (checked-refines codes now code code (lookup code codes) refl).1,
)
perform-refines (deleting code) codes = (λ j. lookup-erase code j codes, refl)

-- On any sequence of operations, the store answers as its specification on the codes that are open
-- before it, and what it leaves has open, at each code, what the specification leaves.
pub perform_all-specified_all :
    (os : List Operation) (codes : Dict AuthorizationCode)
    → ((j : Bytes) → view (perform_all os codes).0 j ≡ (specified_all os (view codes)).0 j)
      × ((perform_all os codes).1 ≡ (specified_all os (view codes)).1)
unfolding perform_all specified_all
perform_all-specified_all [] codes = (λ j. refl, refl)
perform_all-specified_all (o ∷ os) codes =
    let (state, answer) = perform-refines o codes in
    let (states, answers) = perform_all-specified_all os (perform o codes).0 in
    let same : view (perform o codes).0 ≡ (specified o (view codes)).0 = fun_ext state in
    (
      λ j. states j ∙ ap (λ v. (specified_all os v).0 j) same,
      ap₂ ◌∷◌ answer (answers ∙ ap (λ v. (specified_all os v).1) same),
    )
