-- ===== src/Examples/Registration.antt =====
-- The theorems on the registration of an RP at concrete inputs.
use orionlink.Prelude.{
  ◌≡◌, refl, ap, ap₂, ◌∙◌, lookup, true, false, is_empty, none, some, List, [], ◌∷◌, ◌++◌, Bytes,
  text, ok, Dict,
}
use orionlink.Ecc.Toy.{F3, n0, n1, n2, toy_bls, toy_field, to_bytes}
use orionlink.Crypto.Toy.{toy_crypto}
use orionlink.Wire.Toy.{toy_codec}
use orionlink.Cred.{supply}
use orionlink.Cred.PsSig.{key_of, ps_verify}
use orionlink.Session.Agreement.{public_key}
use orionlink.Protocol.{RpRegisterToBrokerRequest}
use orionlink.Files.{File, content_of, Json}
use orionlink.Files.Toy.{pack, unpack, unpack-pack}
use orionlink.Broker.{Broker, RpIdentity}
use orionlink.Rp.{RpServer}
use orionlink.Register.{ServerCredKey, handle_rp_register, register_to_idp}
use orionlink.Register.Issuance.{register_to_idp-handle_rp_register}
use orionlink.Register.AtBroker.{
  BrokerRpInfo, load_registration_data, restore_rp_identities, handle_register_rp,
}
use orionlink.Register.AtBroker.Restart.{
  Mirrors, infos, fresh, handle_register_rp-Mirrors, restore_rp_identities-Mirrors,
}
use orionlink.Examples.{draws, twos}

abbrev info_fields : BrokerRpInfo → List Bytes
info_fields i = i.tid ∷ i.domain ∷ i.callback_url ∷ pack i.scopes ∷ i.sigma ∷ pack i.rp_dh_pks ∷ []

abbrev info_of_fields : List Bytes → BrokerRpInfo
info_of_fields (tid ∷ domain ∷ callback_url ∷ scopes ∷ sigma ∷ rp_dh_pks ∷ rest) = record {
  tid = tid;
  domain = domain;
  callback_url = callback_url;
  scopes = unpack scopes;
  sigma = sigma;
  rp_dh_pks = unpack rp_dh_pks;
}
info_of_fields _ = record {
  tid = [];
  domain = [];
  callback_url = [];
  scopes = [];
  sigma = [];
  rp_dh_pks = [];
}

write_infos : List BrokerRpInfo → List Bytes
write_infos [] = []
write_infos (i ∷ is) = pack (info_fields i) ∷ write_infos is

read_infos : List Bytes → List BrokerRpInfo
read_infos [] = []
read_infos (x ∷ xs) = info_of_fields (unpack x) ∷ read_infos xs

read_infos-write_infos : (is : List BrokerRpInfo) → read_infos (write_infos is) ≡ is
unfolding read_infos write_infos
read_infos-write_infos [] = refl
read_infos-write_infos (i ∷ is) =
    ap₂ ◌∷◌
      (ap info_of_fields (unpack-pack (info_fields i))
        ∙ ap₂ (λ scopes rp_dh_pks. record i { scopes = scopes; rp_dh_pks = rp_dh_pks })
            (unpack-pack i.scopes) (unpack-pack i.rp_dh_pks))
      (read_infos-write_infos is)

instance abbrev toy_infos : Json (List BrokerRpInfo)
toy_infos = record {
  marshal = λ is. pack (write_infos is);
  unmarshal = λ bytes. some (read_infos (unpack bytes));
  unmarshal-marshal =
      λ is. ap some (ap read_infos (unpack-pack (write_infos is)) ∙ read_infos-write_infos is);
}

-- A registered RP, and the request of another one.
abbrev shop : RpIdentity
shop = record {
  tid = text "shop";
  domain_cred = record {
    domain = text "https://shop";
    sigma = some (record { sigma1 = some n1; sigma2 = some n2 });
  };
  callback_url = text "https://shop/cb";
  scopes = text "email" ∷ [];
  user_store = none;
  rp_dh_pks = (1 ∷ []) ∷ [];
}

abbrev rps : Dict RpIdentity
rps = (text "shop", shop) ∷ []

abbrev file : File
file = content_of (toy_infos.marshal (infos rps))

abbrev broker : Broker
broker = record { rp_identity = rps; codes = []; session_data = []; refresh = [] }

abbrev request : RpRegisterToBrokerRequest
request = record {
  domain = text "https://news";
  sig1 = to_bytes n1 ++ to_bytes n1;
  scopes = text "email" ∷ [];
  callback_url = text "https://news/cb";
  rp_dh_pks = (2 ∷ []) ∷ [];
}

mirrored : Mirrors file rps
unfolding load_registration_data
mirrored = (ap ok (read_back), read_back)
  where
    read_back : read_infos (unpack (pack (write_infos (infos rps)))) ≡ infos rps
    read_back =
        ap read_infos (unpack-pack (write_infos (infos rps))) ∙ read_infos-write_infos (infos rps)

handle_register_rp-Mirrors_example :
    let after = (handle_register_rp broker true file request (some (text "news"))).0 in
    Mirrors after.1 after.0.rp_identity
handle_register_rp-Mirrors_example =
    handle_register_rp-Mirrors broker file request (some (text "news")) mirrored

restore_rp_identities-Mirrors_example :
    (records : List BrokerRpInfo) × (load_registration_data file ≡ ok records)
    × (restore_rp_identities [] records ≡ (fresh rps, ok tt))
unfolding lookup
restore_rp_identities-Mirrors_example =
    restore_rp_identities-Mirrors file rps mirrored (refl, tt) ((n1, n2, refl), tt)

-- An RP at the domain 2 with the secret 1 and the public keys of an IdP with the secrets 1 and 2,
-- and 1, 1 and 1.
abbrev rp : RpServer
rp = record {
  tid = [];
  domain = 2 ∷ [];
  identity_sk = some n1;
  vk1 = some (key_of n1 (n2 ∷ [])).public_key;
  vk2 = some (key_of n1 (n1 ∷ n1 ∷ [])).public_key;
  idp_aake_pk = some (public_key n2);
  domain_cred = record { domain = []; sigma = none };
  secret_cred = record { domain = []; identity_sk = none; sigma_bar = none };
  store = record { user_states = []; aake_states = [] };
  refresh = record { rsk = []; rpk = []; rk = []; ck = []; seeded = false; dh_b = none };
  session_ks = [];
}

full : (a : F3) → is_empty (toy_field.marshal a) ≡ false
full n0 = refl
full n1 = refl
full n2 = refl

register_to_idp-handle_rp_register_example :
    let keys : ServerCredKey = record {
      ps_key1 = some (key_of n1 (n2 ∷ []));
      ps_key2 = some (key_of n1 (n1 ∷ n1 ∷ []));
    } in
    let after =
      register_to_idp rp
        (λ req. handle_rp_register keys req (supply twos) (supply draws))
        (supply draws) in
    (after.1 ≡ ok tt)
    × (after.0.secret_cred.identity_sk ≡ some n1)
    × (ps_verify after.0.domain_cred.sigma (n2 ∷ []) rp.vk1 ≡ ok true)
    × (ps_verify after.0.secret_cred.sigma_bar (n2 ∷ n1 ∷ []) rp.vk2 ≡ ok true)
register_to_idp-handle_rp_register_example =
    register_to_idp-handle_rp_register rp n1 n2 n1 n1 n1 n1 draws twos draws full refl refl refl
      refl
