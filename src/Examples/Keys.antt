-- ===== src/Examples/Keys.antt =====
-- The theorems on keys in files, on registrations and on key pools at concrete inputs.
use orionlink.Prelude.{
  ◌≡◌, refl, ap, ap₂, ◌∙◌, Bool, true, false, is_empty, Option, none, some, List, [], ◌∷◌, Bytes,
  ok, length, lookup, arith, ◌%◌,
}
use orionlink.Ecc.Toy.{F3, n0, n1, n2, toy_bls, toy_field}
use orionlink.Crypto.Toy.{toy_crypto}
use orionlink.Wire.Toy.{toy_codec}
use orionlink.Cred.{Rng, supply}
use orionlink.Cred.PsSig.{key_of}
use orionlink.Files.{missing, Json}
use orionlink.Files.Toy.{
  pack, unpack, unpack-pack, via, write_option, read_option, read_option-write_option, toy_hex,
}
use orionlink.Rp.KeyFile.{RpKeyStorage, new_refresh_token_helper, helper_of, pool_size}
use orionlink.Rp.KeyFile.RoundTrip.{new_refresh_token_helper-restart}
use orionlink.Idp.KeyFile.{KeyStorage, CredKeyData, save_cred_key, load_cred_key}
use orionlink.Idp.KeyFile.RoundTrip.{load_cred_key-save_cred_key}
use orionlink.Idp.EmpKeys.{itoa, handle_get_idp_emp_key}
use orionlink.Idp.EmpKeys.RoundRobin.{pool_after, answer_at, key_at, handle_get_idp_emp_key-round}
use orionlink.Register.{ServerCredKey}
use orionlink.Jwks.{PublicKey, jwk_to_public_key, rsa_public_key_to_jwk}
use orionlink.Jwks.Published.{jwk_to_public_key-rsa_public_key_to_jwk}
use orionlink.Jwks.Toy.{toy_url}
use orionlink.Examples.{draws}

handle_get_idp_emp_key-round_example :
    let call =
      handle_get_idp_emp_key
        (pool_after draws 102 (record { keys = []; idx = 7 }))
        (supply draws) in
    (call.1 ≡ answer_at draws (102 % 100))
    × (lookup (itoa (102 % 100)) call.0.keys ≡ some (key_at draws (102 % 100)))
handle_get_idp_emp_key-round_example = handle_get_idp_emp_key-round draws 102 7

abbrev key : PublicKey
key = record { n = 3233; e = 65537 }

jwk_to_public_key-rsa_public_key_to_jwk_example :
    jwk_to_public_key (rsa_public_key_to_jwk key) ≡ ok key
jwk_to_public_key-rsa_public_key_to_jwk_example =
    jwk_to_public_key-rsa_public_key_to_jwk key (omega arith) (omega arith) (omega arith)

abbrev read_storage : List Bytes → RpKeyStorage
read_storage (a ∷ c ∷ d ∷ keys) = record {
  idp_aake_pk = read_option a;
  identity_sk = read_option c;
  session_ks = read_option d;
  refresh_keys = keys;
}
read_storage _ = record {
  idp_aake_pk = none;
  identity_sk = none;
  session_ks = none;
  refresh_keys = [];
}

instance abbrev toy_rp_storage : Json RpKeyStorage
toy_rp_storage =
    via
      (λ s.
        write_option s.idp_aake_pk
        ∷ write_option s.identity_sk
        ∷ write_option s.session_ks
        ∷ s.refresh_keys)
      read_storage
      (λ s.
        rw
          (
            read_option-write_option s.idp_aake_pk,
            read_option-write_option s.identity_sk,
            read_option-write_option s.session_ks,
          )
          refl)

new_refresh_token_helper-restart_example :
    let first = new_refresh_token_helper true 2 missing (supply draws) in
    (rsk : List F3) × (first.1 ≡ ok (helper_of rsk))
    × (length rsk ≡ pool_size 2)
    × ((rng : Rng) (writable : Bool)
        → new_refresh_token_helper writable 2 first.0 rng ≡ (first.0, ok (helper_of rsk)))
new_refresh_token_helper-restart_example = new_refresh_token_helper-restart 2 missing draws

abbrev pair_of : List Bytes → Bytes × Bytes
pair_of (a ∷ c ∷ rest) = (a, c)
pair_of _ = ([], [])

abbrev write_pair : Option (Bytes × Bytes) → Bytes
write_pair none = []
write_pair (some (a, c)) = 0 ∷ pack (a ∷ c ∷ [])

abbrev read_pair : Bytes → Option (Bytes × Bytes)
read_pair [] = none
read_pair (_ ∷ bytes) = some (pair_of (unpack bytes))

read_pair-write_pair : (o : Option (Bytes × Bytes)) → read_pair (write_pair o) ≡ o
read_pair-write_pair none = refl
read_pair-write_pair (some (a, c)) = ap (λ xs. some (pair_of xs)) (unpack-pack (a ∷ c ∷ []))

abbrev cred_of : List Bytes → CredKeyData
cred_of (x1 ∷ yn1 ∷ x2 ∷ yn2 ∷ rest) = record {
  ps_key1_x = x1;
  ps_key1_yn = unpack yn1;
  ps_key2_x = x2;
  ps_key2_yn = unpack yn2;
}
cred_of _ = record { ps_key1_x = []; ps_key1_yn = []; ps_key2_x = []; ps_key2_yn = [] }

abbrev cred_fields : CredKeyData → List Bytes
cred_fields c = c.ps_key1_x ∷ pack c.ps_key1_yn ∷ c.ps_key2_x ∷ pack c.ps_key2_yn ∷ []

abbrev write_cred : Option CredKeyData → Bytes
write_cred none = []
write_cred (some c) = 0 ∷ pack (cred_fields c)

abbrev read_cred : Bytes → Option CredKeyData
read_cred [] = none
read_cred (_ ∷ bytes) = some (cred_of (unpack bytes))

read_cred-write_cred : (o : Option CredKeyData) → read_cred (write_cred o) ≡ o
read_cred-write_cred none = refl
read_cred-write_cred (some c) =
    ap (λ xs. some (cred_of xs)) (unpack-pack (cred_fields c))
    ∙ ap₂ (λ yn1 yn2. some (record c { ps_key1_yn = yn1; ps_key2_yn = yn2 }))
        (unpack-pack c.ps_key1_yn) (unpack-pack c.ps_key2_yn)

abbrev read_key_storage : List Bytes → KeyStorage
read_key_storage (a ∷ c ∷ d ∷ rest) = record {
  identity_key = read_pair a;
  cred_key = read_cred c;
  session_ks = read_option d;
}
read_key_storage _ = record { identity_key = none; cred_key = none; session_ks = none }

instance abbrev toy_key_storage : Json KeyStorage
toy_key_storage =
    via (λ s. write_pair s.identity_key ∷ write_cred s.cred_key ∷ write_option s.session_ks ∷ [])
      read_key_storage
      (λ s.
        rw
          (
            read_pair-write_pair s.identity_key,
            read_cred-write_cred s.cred_key,
            read_option-write_option s.session_ks,
          )
          refl)

full : (a : F3) → is_empty (toy_field.marshal a) ≡ false
full n0 = refl
full n1 = refl
full n2 = refl

load_cred_key-save_cred_key_example :
    let keys : ServerCredKey = record {
      ps_key1 = some (key_of n1 (n2 ∷ []));
      ps_key2 = some (key_of n2 (n1 ∷ n0 ∷ []));
    } in
    load_cred_key (save_cred_key true keys missing missing).0 missing ≡ ok keys
load_cred_key-save_cred_key_example =
    load_cred_key-save_cred_key full n1 n2 (n2 ∷ []) (n1 ∷ n0 ∷ []) missing missing
