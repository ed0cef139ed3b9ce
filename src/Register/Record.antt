-- ===== src/Register/Record.antt =====
-- The record of an RP on its registrations: RP/persist.go, and `handleLogin` of RP/handler.go, which reads
-- the record first. The record's time stamp, that nothing reads, is left out.
pub mod Restart
pub mod Attempts
pub mod Auto
use orionlink.Prelude.{
  ℕ, zero, suc, ◌+◌, Bool, true, false, not, ◌&&◌, Option, none, some, List, [], ◌∷◌, ◌++◌, Bytes,
  content, text, is_empty, Result, ok, err, panic, ◌>>=◌, ◌>>◌, fail_if, rename_err, if◌then◌else◌,
}
use orionlink.Ecc.{Bls, Scalar}
use orionlink.Crypto.{Crypto}
use orionlink.Wire.{scalar_to_bytes, bytes_to_scalar}
use orionlink.Cred.{Rng, PsSignMsg, DomainCredential, SecretCredential}
use orionlink.Cred.PsSig.{from_json}
use orionlink.Files.{File, missing, unreadable, content_of, Json, write_record, read_record}
use orionlink.Protocol.{RpRegisterToIdpRequest, RpRegisterToIdpResponse, RpRegisterToBrokerRequest}
use orionlink.Rp.{RpServer}
use orionlink.Rp.Callback.{RpSession}
use orionlink.Register.{with_sigma, with_sigma_bar, blank, register_to_idp}
use orionlink.Register.AtBroker.{sigma_bytes, register_to_broker}

-- `DomainCredData`, `SecretCredData` and `RegistrationData`; an empty text stands for no key.
pub record DomainCredData : Type 0 where
  pub domain : Bytes
  pub sigma : Bytes

pub record SecretCredData : Type 0 where
  pub domain : Bytes
  pub identity_sk : Bytes
  pub sigma_bar : Bytes

pub record RegistrationData : Type 0 where
  pub idp_registered : Bool
  pub broker_registered : Bool
  pub tid : Bytes
  pub domain_cred : Option DomainCredData
  pub secret_cred : Option SecretCredData

abbrev pub no_registration : RegistrationData
no_registration = record {
  idp_registered = false;
  broker_registered = false;
  tid = [];
  domain_cred = none;
  secret_cred = none;
}

module _ ⦃b : Bls⦄ ⦃h : Crypto⦄ where
  -- `Sigma != nil && Sigma.Sigma1 != nil`
  abbrev pub is_signed : Option PsSignMsg → Bool
  is_signed none = false
  is_signed (some sigma) = elim sigma.sigma1 [ none ↦ false | some s1 ↦ true ]

  -- The record of a server, whose two credentials are never nil.
  abbrev pub data_of : RpServer → RegistrationData
  data_of s = record {
    idp_registered = is_signed s.domain_cred.sigma;
    broker_registered = not (is_empty s.tid);
    tid = s.tid;
    domain_cred =
        some (record { domain = s.domain_cred.domain; sigma = sigma_bytes s.domain_cred.sigma });
    secret_cred = some (record {
      domain = s.secret_cred.domain;
      identity_sk = content (scalar_to_bytes s.secret_cred.identity_sk);
      sigma_bar = sigma_bytes s.secret_cred.sigma_bar;
    });
  }

  -- `loadRegistrationData` behind a signature of the domain that was decoded.
  abbrev pub with_domain_sigma : RpServer → Result PsSignMsg → RpServer × Result (Unit {0})
  with_domain_sigma s (ok sigma) = (with_sigma s (some sigma), ok tt)
  with_domain_sigma s (err _) = (with_sigma s (some blank), err "restore domain cred sigma")
  with_domain_sigma s panic = (with_sigma s (some blank), panic)

  abbrev pub restore_domain_cred : RpServer → Option DomainCredData → RpServer × Result (Unit {0})
  restore_domain_cred s none = (s, ok tt)
  restore_domain_cred s (some d) =
      let s' = record s { domain_cred = record s.domain_cred { domain = d.domain } } in
      if is_empty d.sigma then (s', ok tt) else with_domain_sigma s' (from_json d.sigma)

  abbrev pub with_secret_sigma : RpServer → Result PsSignMsg → RpServer × Result (Unit {0})
  with_secret_sigma s (ok sigma) = (with_sigma_bar s (some sigma), ok tt)
  with_secret_sigma s (err _) = (with_sigma_bar s (some blank), err "restore secret cred sigma bar")
  with_secret_sigma s panic = (with_sigma_bar s (some blank), panic)

  abbrev pub restore_sigma_bar : RpServer → Bytes → RpServer × Result (Unit {0})
  restore_sigma_bar s sigma_bar =
      if is_empty sigma_bar then (s, ok tt) else with_secret_sigma s (from_json sigma_bar)

  abbrev pub with_secret : RpServer → Bytes → Result Scalar → RpServer × Result (Unit {0})
  with_secret s sigma_bar (ok sk) =
      restore_sigma_bar (record s { secret_cred = record s.secret_cred { identity_sk = some sk } })
        sigma_bar
  with_secret s sigma_bar (err _) = (s, err "restore secret cred identity sk")
  with_secret s sigma_bar panic = (s, panic)

  abbrev pub restore_secret_cred : RpServer → Option SecretCredData → RpServer × Result (Unit {0})
  restore_secret_cred s none = (s, ok tt)
  restore_secret_cred s (some d) =
      let s' = record s { secret_cred = record s.secret_cred { domain = d.domain } } in
      if is_empty d.identity_sk
      then restore_sigma_bar s' d.sigma_bar
      else with_secret s' d.sigma_bar (bytes_to_scalar (some d.identity_sk))

  abbrev pub restore_tid :
      RegistrationData → RpServer × Result (Unit {0}) → RpServer × Result RegistrationData
  restore_tid reg_data (s, ok _) =
      (if is_empty reg_data.tid then s else record s { tid = reg_data.tid }, ok reg_data)
  restore_tid reg_data (s, err e) = (s, err e)
  restore_tid reg_data (s, panic) = (s, panic)

  -- Behind the restored domain credential: the secret credential and the ticket.
  abbrev pub restore_rest :
      RegistrationData → RpServer × Result (Unit {0}) → RpServer × Result RegistrationData
  restore_rest reg_data (s, ok _) =
      restore_tid reg_data (restore_secret_cred s reg_data.secret_cred)
  restore_rest reg_data (s, err e) = (s, err e)
  restore_rest reg_data (s, panic) = (s, panic)

  -- `loadRegistrationData` behind the file: what was restored before an error stays.
  abbrev pub restore_record :
      RpServer → Result RegistrationData → RpServer × Result RegistrationData
  restore_record s (ok reg_data) =
      restore_rest reg_data (restore_domain_cred s reg_data.domain_cred)
  restore_record s (err e) = (s, err e)
  restore_record s panic = (s, panic)

  module _ ⦃json : Json RegistrationData⦄ where
    -- `saveRegistrationData` and `loadRegistrationData` of the RP.
    unfoldable pub save_record : Bool → RpServer → File → File × Result (Unit {0})
    save_record writable s file = write_record json writable (data_of s) file

    unfoldable pub load_record : File → RpServer → RpServer × Result RegistrationData
    load_record file s = restore_record s (read_record json no_registration file)

    -- The values that `handleRegistrationStatus` answers.
    unfoldable pub handle_registration_status :
        File → RpServer → RpServer × Result (Bool × Bool × Bool × Bytes)
    handle_registration_status file s =
        let loaded = load_record file s in
        (
          loaded.0,
          rename_err "failed to load registration data" loaded.1 >>= λ d. ok (
            d.idp_registered && d.broker_registered,
            d.idp_registered,
            d.broker_registered,
            d.tid,
          ),
        )

    -- The parameters of the request, in the order that the map gives them.
    abbrev pub query : (Bytes → Bytes) → List (Bytes × Bytes) → Bytes
    query escape [] = []
    query escape ((k, v) ∷ params) =
        text "&" ++ (escape k ++ (text "=" ++ (escape v ++ query escape params)))

    -- `handleLogin` of the RP, where `drawn` is what `lib.NewRandomID` gives: the server with what
    -- could be loaded, the session with the new state, and the address at the Broker.
    unfoldable pub start_login :
        File
        → RpServer
        → (escape : Bytes → Bytes) → (authorize_url redirect_uri : Bytes) → List (Bytes × Bytes)
        → Bytes
        → Result RpSession
        → Bool
        → RpServer × Result (RpSession × Bytes)
    start_login file s escape authorize_url redirect_uri params drawn opened savable =
        let s' = (load_record file s).0 in
        (
          s',
          rename_err "RP: session error." opened >>= λ sess.
              fail_if (not savable) "RP: session error." >>= λ _. ok (
                record sess { state = some drawn },
                authorize_url
                    ++ (text "?redirect_uri="
                        ++ (escape redirect_uri
                            ++ (query escape params
                                ++ (text "&tid="
                                    ++ (escape s'.tid ++ (text "&state=" ++ escape drawn)))))),
              ),
        )
