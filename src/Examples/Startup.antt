-- ===== src/Examples/Startup.antt =====
-- The theorems on an RP's record of registrations, and on a user's consent, at concrete inputs.
use orionlink.Prelude.{
  ℕ, zero, suc, ◌<◌, ◌↔◌, ◌≡◌, refl, ap, Bool, true, false, is_empty, Option, none, some, List, [],
  ◌∷◌, Bytes, take, text, ok, err, Dict, lookup, bytes_eq, arith,
}
use orionlink.Ecc.Toy.{F3, n0, n1, n2, toy_bls, toy_field}
use orionlink.Crypto.Toy.{toy_crypto}
use orionlink.Wire.Toy.{toy_codec}
use orionlink.Cred.{supply}
use orionlink.Cred.PsSig.{key_of}
use orionlink.Cred.Sums.{add_terms}
use orionlink.Cred.Nizk.{prove_multi_exp, draw_list, compute_multi_exp_challenge, compress_all}
use orionlink.Cred.Blind.{prepare_blind_sign}
use orionlink.Register.AtBroker.{register_to_broker}
use orionlink.Session.Agreement.{public_key}
use orionlink.Files.{missing, Json}
use orionlink.Files.Toy.{pack, unpack, unpack-pack, via}
use orionlink.Rp.{RpServer}
use orionlink.Register.{
  ServerCredKey, handle_rp_register, get_register_request_to_idp, register_to_idp,
}
use orionlink.Register.Issuance.{register_to_idp-handle_rp_register}
use orionlink.Register.Record.{
  RegistrationData, DomainCredData, SecretCredData, load_record, save_record,
}
use orionlink.Register.Record.Auto.{Attempt, attempt, is_complete, auto_register}
use orionlink.Register.Record.Restart.{auto_register-save_record}
use orionlink.Register.Record.Attempts.{nth, Fail, auto_register-nth}
use orionlink.Idp.Store.{AuthorizationCode, get_code}
use orionlink.Idp.Consent.{
  User, IdpSession, Cookies, Requests, handle_do_login, handle_authorize, handle_authorize_code,
}
use orionlink.Idp.Consent.Issued.{get_code-handle_authorize_code, handle_do_login-blank}
use orionlink.Examples.{draws, twos}

abbrev alice : User
alice = record {
  username = text "Alice";
  password = text "Alice-pass";
  sub = text "7";
  email = text "a@b";
}

abbrev users : Dict User
users = (text "Alice", alice) ∷ []

known : lookup (text "Alice") users ≡ some alice
unfolding lookup bytes_eq
known = refl

abbrev nobody : IdpSession
nobody = record { uid = none; username = none; acid = none }

handle_do_login-blank_example :
    handle_do_login users (ok nobody) true (text "Bob") [] []
    ≡ ok (record nobody { uid = some (text "7"); username = some (text "Alice") }, text "/")
handle_do_login-blank_example =
    handle_do_login-blank users nobody alice (text "Bob") [] [] refl known refl

-- A transport of five characters in a cookie, and strings that keep their values.
abbrev requests : Requests
requests = record { returned = λ v. take 5 v; query_later = λ v. v; cookie_later = λ v. v }

get_code-handle_authorize_code_example :
    let codes : Dict AuthorizationCode = [] in
    (logged : IdpSession) × (asked : IdpSession) × (page : Bytes) × (shown : Cookies)
    × (handle_do_login users (ok nobody) true (text "Alice") (text "Alice-pass") []
        ≡ ok (logged, page))
    × (handle_authorize
          (record { uid = none; acid = none; scope = none })
          (ok logged)
          true
          (text "acid")
          (text "email ")
        ≡ (shown, ok asked))
    × ((handle_authorize_code requests users codes shown
          (ok asked)
          (text "d")
          (some (text "c"))
          100).1
        ≡ ok (text "c"))
    × ((get_code
          (handle_authorize_code requests users codes shown
            (ok asked)
            (text "d")
            (some (text "c"))
            100).0
          200
          (text "c")).1
        ≡ ok (record {
          code = text "c";
          oprf_enc = text "d";
          acid = text "acid";
          uid = text "7";
          username = text "Alice";
          email = text "a@b";
          scope = text "email";
          expires_at = 400;
          used = false;
        }))
get_code-handle_authorize_code_example =
    get_code-handle_authorize_code requests users [] nobody
      (record { uid = none; acid = none; scope = none }) alice (text "Alice") [] (text "acid")
      (text "email ") (text "d") (text "c") 100 200 known refl refl refl (omega arith)

-- A record of registrations as a list of texts.
abbrev write_bool : Bool → Bytes
write_bool true = 1 ∷ []
write_bool false = []

abbrev read_bool : Bytes → Bool
read_bool [] = false
read_bool (_ ∷ _) = true

read_bool-write_bool : (x : Bool) → read_bool (write_bool x) ≡ x
read_bool-write_bool true = refl
read_bool-write_bool false = refl

abbrev write_domain : Option DomainCredData → Bytes
write_domain none = []
write_domain (some d) = 0 ∷ pack (d.domain ∷ d.sigma ∷ [])

abbrev domain_of : List Bytes → DomainCredData
domain_of (domain ∷ sigma ∷ rest) = record { domain = domain; sigma = sigma }
domain_of _ = record { domain = []; sigma = [] }

abbrev read_domain : Bytes → Option DomainCredData
read_domain [] = none
read_domain (_ ∷ bytes) = some (domain_of (unpack bytes))

read_domain-write_domain : (o : Option DomainCredData) → read_domain (write_domain o) ≡ o
read_domain-write_domain none = refl
read_domain-write_domain (some d) =
    ap (λ xs. some (domain_of xs)) (unpack-pack (d.domain ∷ d.sigma ∷ []))

abbrev write_secret : Option SecretCredData → Bytes
write_secret none = []
write_secret (some d) = 0 ∷ pack (d.domain ∷ d.identity_sk ∷ d.sigma_bar ∷ [])

abbrev secret_of : List Bytes → SecretCredData
secret_of (domain ∷ identity_sk ∷ sigma_bar ∷ rest) = record {
  domain = domain;
  identity_sk = identity_sk;
  sigma_bar = sigma_bar;
}
secret_of _ = record { domain = []; identity_sk = []; sigma_bar = [] }

abbrev read_secret : Bytes → Option SecretCredData
read_secret [] = none
read_secret (_ ∷ bytes) = some (secret_of (unpack bytes))

read_secret-write_secret : (o : Option SecretCredData) → read_secret (write_secret o) ≡ o
read_secret-write_secret none = refl
read_secret-write_secret (some d) =
    ap (λ xs. some (secret_of xs)) (unpack-pack (d.domain ∷ d.identity_sk ∷ d.sigma_bar ∷ []))

abbrev read_registration : List Bytes → RegistrationData
read_registration (x ∷ y ∷ tid ∷ d ∷ e ∷ rest) = record {
  idp_registered = read_bool x;
  broker_registered = read_bool y;
  tid = tid;
  domain_cred = read_domain d;
  secret_cred = read_secret e;
}
read_registration _ = record {
  idp_registered = false;
  broker_registered = false;
  tid = [];
  domain_cred = none;
  secret_cred = none;
}

instance abbrev toy_registration : Json RegistrationData
toy_registration =
    via
      (λ r.
        write_bool r.idp_registered
        ∷ write_bool r.broker_registered
        ∷ r.tid
        ∷ write_domain r.domain_cred
        ∷ write_secret r.secret_cred
        ∷ [])
      read_registration
      (λ r.
        rw
          (
            read_bool-write_bool r.idp_registered,
            read_bool-write_bool r.broker_registered,
            read_domain-write_domain r.domain_cred,
            read_secret-write_secret r.secret_cred,
          )
          refl)

-- An RP at the domain 2 with the secret 1, before its registration.
abbrev rp : RpServer
rp = record {
  tid = [];
  domain = 2 ∷ [];
  identity_sk = some n1;
  vk1 = some (key_of n1 (n2 ∷ [])).public_key;
  vk2 = some (key_of n1 (n1 ∷ n1 ∷ [])).public_key;
  idp_aake_pk = some (public_key n2);
  domain_cred = record { domain = 2 ∷ []; sigma = none };
  secret_cred = record { domain = 2 ∷ []; identity_sk = some n1; sigma_bar = none };
  store = record { user_states = []; aake_states = [] };
  refresh = record { rsk = []; rpk = []; rk = []; ck = []; seeded = false; dh_b = none };
  session_ks = [];
}

abbrev registered : RpServer
registered = record rp {
  tid = text "t";
  domain_cred = record {
    domain = 2 ∷ [];
    sigma = some (record { sigma1 = some n1; sigma2 = some n2 });
  };
  secret_cred = record {
    domain = 2 ∷ [];
    identity_sk = some n1;
    sigma_bar = some (record { sigma1 = some n1; sigma2 = some n1 });
  };
}

full : (a : F3) → is_empty (toy_field.marshal a) ≡ false
full n0 = refl
full n1 = refl
full n2 = refl

abbrev keys : ServerCredKey
keys = record { ps_key1 = some (key_of n1 (n2 ∷ [])); ps_key2 = some (key_of n1 (n1 ∷ n1 ∷ [])) }

-- The first attempt does not reach the IdP.
abbrev attempts : ℕ → Attempt
attempts zero = record {
  post_idp = λ req. err "refused";
  post_broker = λ req. err "refused";
  rng = supply draws;
  writable = true;
  expired = false;
}
attempts (suc i) = record {
  post_idp = λ req. handle_rp_register keys req (supply twos) (supply draws);
  post_broker = λ req. ok (text "t");
  rng = supply draws;
  writable = true;
  expired = false;
}

auto_register-save_record_example :
    let kept = (save_record true registered missing).0 in
    auto_register (text "uri") attempts (rp, kept) ≡ ((registered, kept), ok tt)
auto_register-save_record_example =
    auto_register-save_record registered rp missing n1 n2 n1 n1 n1 (text "uri") attempts full refl
      refl refl refl

issued :
    (register_to_idp rp
      (λ req. handle_rp_register keys req (supply twos) (supply draws))
      (supply draws)).1
    ≡ ok tt
issued =
    (register_to_idp-handle_rp_register rp n1 n2 n1 n1 n1 n1 draws twos draws full refl refl refl
      refl).0

unreached :
    attempt (text "uri") (attempts 0) (rp, missing)
    ≡ ((rp, missing), err "IdP communication failed")
unfolding attempt register_to_idp get_register_request_to_idp prepare_blind_sign add_terms
    prove_multi_exp draw_list compute_multi_exp_challenge compress_all
unreached = refl

succeeded : (nth (text "uri") attempts 0 1 (rp, missing)).1 ≡ ok tt
unfolding nth attempt register_to_broker
succeeded = rw (unreached, issued) refl

none_yet : is_complete (load_record missing rp).1 ≡ false
unfolding load_record
none_yet = refl

loaded : (load_record missing rp).0 ≡ rp
unfolding load_record
loaded = refl

first_fails : Fail (text "uri") attempts 0 1 ((load_record missing rp).0, missing)
first_fails = rw loaded (refl, ("IdP communication failed", ap (λ r. r.1) unreached), tt)

auto_register-nth_example :
    (auto_register (text "uri") attempts (rp, missing)
      ≡ ((nth (text "uri") attempts 0 1 ((load_record missing rp).0, missing)).0, ok tt))
    ↔ ((j : ℕ) × (j < 10)
        × Fail (text "uri") attempts 0 j ((load_record missing rp).0, missing)
        × (nth (text "uri") attempts 0 j ((load_record missing rp).0, missing)
            ≡ ((nth (text "uri") attempts 0 1 ((load_record missing rp).0, missing)).0, ok tt)))
auto_register-nth_example =
    auto_register-nth (text "uri") attempts rp missing
      (nth (text "uri") attempts 0 1 ((load_record missing rp).0, missing)).0 none_yet

-- The right side holds there, so the registration succeeds with the second attempt.
registers :
    auto_register (text "uri") attempts (rp, missing)
    ≡ ((nth (text "uri") attempts 0 1 ((load_record missing rp).0, missing)).0, ok tt)
registers = auto_register-nth_example.1 (
  1,
  omega arith,
  first_fails,
  ap (λ e. ((nth (text "uri") attempts 0 1 ((load_record missing rp).0, missing)).0, e))
      (rw loaded succeeded),
)
