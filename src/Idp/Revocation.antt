-- ===== src/Idp/Revocation.antt =====
-- What `Delete` of IdP/storage.go takes from the records of users.
use mathlib.Core.Path.{subst}
use orionlink.Prelude.{
  ◌≡◌, ◌≢◌, ◌⊎◌, inl, inr, Bool-cases, ◌∷◌, ◌++◌, refl, sym, ap, ◌∙◌, true, false, [], Bool, Option,
  none, some, List, Bytes, bytes_eq, bytes_eq_iff, if◌then◌else◌, Dict, lookup, lookup-insert,
}
use orionlink.Idp.Store.{AuthorizedUserData, records, get_all, remove_first, removed, delete}

kept :
    (m : Dict (List AuthorizedUserData)) (uid acid other : Bytes)
    (o : Option (List AuthorizedUserData))
    → lookup uid m ≡ o
    → records (lookup other (removed m uid acid o))
      ≡ (if bytes_eq uid other then remove_first acid (records o) else records (lookup other m))
unfolding remove_first
kept m uid acid other none h = go (bytes_eq uid other) refl
  where
    go :
        (same : Bool)
        → bytes_eq uid other ≡ same
        → records (lookup other m) ≡ (if same then [] else records (lookup other m))
    go true same =
        ap (λ u. records (lookup u m)) (sym ((bytes_eq_iff uid other).0 same)) ∙ ap records h
    go false same = refl
kept m uid acid other (some xs) h =
    rw (lookup-insert uid other (remove_first acid xs) m) (go (bytes_eq uid other))
  where
    go :
        (same : Bool)
        → records (if same then some (remove_first acid xs) else lookup other m)
          ≡ (if same then remove_first acid xs else records (lookup other m))
    go true = refl
    go false = refl

bytes_ne : (x y : Bytes) → bytes_eq x y ≡ false → x ≢ y
bytes_ne x y differ e = let same = (bytes_eq_iff x y).1 e in cc (same, differ)

-- No record has the credential.
abbrev pub Lacks : Bytes → List AuthorizedUserData → Type 0
Lacks acid [] = Unit
Lacks acid (r ∷ rs) = (r.acid ≢ acid) × Lacks acid rs

-- The second list is the first one without its first record of the credential, if there is one.
abbrev pub IsWithout : Bytes → List AuthorizedUserData → List AuthorizedUserData → Type 0
IsWithout acid before after =
    (Lacks acid before × (after ≡ before))
    ⊎ ((front : List AuthorizedUserData) × (r : AuthorizedUserData) × (back : List
          AuthorizedUserData)
        × (before ≡ front ++ (r ∷ back))
        × Lacks acid front
        × (r.acid ≡ acid)
        × (after ≡ front ++ back))

IsWithout-cons :
    (acid : Bytes) (r : AuthorizedUserData) (before after : List AuthorizedUserData)
    → r.acid ≢ acid
    → IsWithout acid before after
    → IsWithout acid (r ∷ before) (r ∷ after)
IsWithout-cons acid r before after other (inl (none_here, e)) =
    inl ((other, none_here), ap (λ rs. r ∷ rs) e)
IsWithout-cons acid r before after other (inr (front, found, back, e, none_before, same, e')) =
    inr (
      r ∷ front,
      found,
      back,
      ap (λ rs. r ∷ rs) e,
      (other, none_before),
      same,
      ap (λ rs. r ∷ rs) e',
    )

remove_first-IsWithout :
    (acid : Bytes) (rs : List AuthorizedUserData) → IsWithout acid rs (remove_first acid rs)
unfolding remove_first
remove_first-IsWithout acid [] = inl (tt, refl)
remove_first-IsWithout acid (r ∷ rs) = elim (Bool-cases (bytes_eq r.acid acid)) [
  | inl same ↦ rw same (inr ([], r, rs, refl, tt, (bytes_eq_iff r.acid acid).0 same, refl))
  | inr other ↦ rw other (
      IsWithout-cons acid r rs (remove_first acid rs) (bytes_ne r.acid acid other)
        (remove_first-IsWithout acid rs))
]

-- A revocation takes from the records of its user the first one with its credential, if there is
-- one, and leaves the others in their order; the records of every other user stay as they are.
pub get_all-delete :
    (m : Dict (List AuthorizedUserData)) (uid acid other : Bytes)
    → let before = get_all m (some other) in
      let after = get_all (delete m (some uid) (some acid)) (some other) in
      ((uid ≡ other) × IsWithout acid before after) ⊎ ((uid ≢ other) × (after ≡ before))
unfolding get_all delete
get_all-delete m uid acid other = elim (Bool-cases (bytes_eq uid other)) [
  | inl same ↦
      let e = (bytes_eq_iff uid other).0 same in
      inl (
        e,
        subst (λ after. IsWithout acid (records (lookup other m)) after)
            (sym (
              rw same at (kept m uid acid other (lookup uid m) refl)
              ∙ ap (λ u. remove_first acid (records (lookup u m))) e))
            (remove_first-IsWithout acid (records (lookup other m))),
      )
  | inr differ ↦
      inr (bytes_ne uid other differ, rw differ at (kept m uid acid other (lookup uid m) refl))
]
