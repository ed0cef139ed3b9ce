-- ===== src/Token/Toy.antt =====
-- A value of the parameter for the examples: a token is its claims, each behind its length.
use orionlink.Prelude.{
  ℕ, zero, suc, ◌≡◌, ◌≤◌, ◌<◌, refl, sym, ap, ◌∙◌, true, false, Option, none, some, List, [], ◌∷◌,
  ◌++◌, Bytes, length, take, drop, take-append, drop-append, leb, arith, if◌then◌else◌,
}
use orionlink.Token.{Claims, Jwt}

abbrev pub field : Bytes → Bytes → Bytes
field x rest = length x ∷ x ++ rest

abbrev pub head : Bytes → Bytes
head [] = []
head (n ∷ xs) = take n xs

abbrev pub tail : Bytes → Bytes
tail [] = []
tail (n ∷ xs) = drop n xs

abbrev pub fields : List Bytes → Bytes
fields [] = []
fields (x ∷ xs) = field x (fields xs)

abbrev pub read_all : ℕ → Bytes → List Bytes
read_all zero bytes = []
read_all (suc n) bytes = head bytes ∷ read_all n (tail bytes)

pub read_all-fields : (xs : List Bytes) → read_all (length xs) (fields xs) ≡ xs
read_all-fields [] = refl
read_all-fields (x ∷ xs) =
    rw (take-append x (fields xs), drop-append x (fields xs)) (ap (◌∷◌ x) (read_all-fields xs))

abbrev pub write : Claims → Bytes
write c =
    c.registered.expires_at
    ∷ c.registered.issued_at
    ∷ length c.registered.audience
    ∷ field c.name (
        field c.email (
          field c.scope (
            field c.registered.issuer (field c.registered.subject (fields c.registered.audience)))))

abbrev pub read_claims : ℕ → ℕ → ℕ → Bytes → Claims
read_claims exp iat n bytes = record {
  name = head bytes;
  email = head (tail bytes);
  scope = head (tail (tail bytes));
  registered = record {
    issuer = head (tail (tail (tail bytes)));
    subject = head (tail (tail (tail (tail bytes))));
    audience = read_all n (tail (tail (tail (tail (tail bytes)))));
    expires_at = exp;
    issued_at = iat;
  };
}

unfoldable pub parse : ℕ → Bytes → Option Claims
parse now (exp ∷ iat ∷ n ∷ bytes) = if leb exp now then none else some (read_claims exp iat n bytes)
parse now [] = none
parse now (exp ∷ []) = none
parse now (exp ∷ iat ∷ []) = none

pub read_claims-write :
    (name email scope issuer subject : Bytes) (audience : List Bytes) (exp iat : ℕ)
    → read_claims exp iat
        (length audience)
        (field name (field email (field scope (field issuer (field subject (fields audience))))))
      ≡ record {
        name = name;
        email = email;
        scope = scope;
        registered = record {
          issuer = issuer;
          subject = subject;
          audience = audience;
          expires_at = exp;
          issued_at = iat;
        };
      }
read_claims-write name email scope issuer subject audience exp iat =
    simp (take-append, drop-append, read_all-fields)

pub parse-sign :
    (c : Claims) (t : Bytes) (now : ℕ)
    → some (write c) ≡ some t
    → c.registered.issued_at ≤ now
    → now < c.registered.expires_at
    → parse now t ≡ some c
unfolding parse
parse-sign c t now h le lt =
    ap (parse now) (sym written)
    ∙ rw
        (
          later,
          read_claims-write c.name c.email c.scope c.registered.issuer c.registered.subject
              c.registered.audience c.registered.expires_at c.registered.issued_at,
        )
        refl
  where
    written : write c ≡ t
    written = cc h

    later : leb c.registered.expires_at now ≡ false
    later = ground arith

pub parse-expired :
    (c : Claims) (t : Bytes) (now : ℕ)
    → some (write c) ≡ some t
    → c.registered.expires_at ≤ now
    → parse now t ≡ none
unfolding parse
parse-expired c t now h le = ap (parse now) (sym written) ∙ rw over refl
  where
    written : write c ≡ t
    written = cc h

    over : leb c.registered.expires_at now ≡ true
    over = ground arith

instance abbrev pub toy_jwt : Jwt
toy_jwt = record {
  sign = λ c. some (write c);
  parse = parse;
  parse-sign = parse-sign;
  parse-expired = parse-expired;
}
