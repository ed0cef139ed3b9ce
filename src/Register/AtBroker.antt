-- ===== src/Register/AtBroker.antt =====
-- The registration of an RP at the Broker: Broker/register.go, the Broker's file of registrations
-- in Broker/persist.go, and the RP's side in RP/register.go.
pub mod Restart
use orionlink.Prelude.{
  ℕ, Bool, true, false, Option, none, some, List, [], ◌∷◌, map, Bytes, bytes_eq, is_empty, text,
  Result, ok, err, panic, ◌>>=◌, ◌>>◌, or_err, fail_if, rename_err, if◌then◌else◌, Dict, lookup,
  insert,
}
use orionlink.Ecc.{Bls}
use orionlink.Wire.{Codec}
use orionlink.Cred.{PsSignMsg, DomainCredential}
use orionlink.Cred.PsSig.{to_json, from_json}
use orionlink.Protocol.{RpRegisterToBrokerRequest}
use orionlink.Ratchet.Rp.{public_keys}
use orionlink.Broker.{Broker, RpIdentity}
use orionlink.Files.{File, missing, unreadable, content_of, Json, write_record}
use orionlink.Rp.{RpServer}

-- `BrokerRPInfo`, without its time stamp: a registered RP in the file.
pub record BrokerRpInfo : Type 0 where
  pub tid : Bytes
  pub domain : Bytes
  pub callback_url : Bytes
  pub scopes : List Bytes
  pub sigma : Bytes
  pub rp_dh_pks : List Bytes

-- The records of a file as a saver reads them: what cannot be read counts as none.
abbrev pub records_of : Option (List BrokerRpInfo) → List BrokerRpInfo
records_of none = []
records_of (some infos) = infos

-- The loop of `saveRegistrationData`: the first record of the RP is replaced, or one is added.
unfoldable pub put_info : BrokerRpInfo → List BrokerRpInfo → List BrokerRpInfo
put_info info [] = info ∷ []
put_info info (i ∷ infos) =
    let rest = put_info info infos in if bytes_eq i.tid info.tid then info ∷ infos else i ∷ rest

module _ ⦃b : Bls⦄ where
  -- The digits of a signature; nil gives none.
  abbrev pub sigma_bytes : Option PsSignMsg → Bytes
  sigma_bytes none = []
  sigma_bytes (some sigma) = to_json (some sigma)

  abbrev pub info_of : Bytes → RpIdentity → BrokerRpInfo
  info_of tid rp = record {
    tid = tid;
    domain = rp.domain_cred.domain;
    callback_url = rp.callback_url;
    scopes = rp.scopes;
    sigma = sigma_bytes rp.domain_cred.sigma;
    rp_dh_pks = rp.rp_dh_pks;
  }

  module _ ⦃json : Json (List BrokerRpInfo)⦄ where
    abbrev pub stored : File → List BrokerRpInfo
    stored missing = []
    stored unreadable = []
    stored (content_of bytes) = records_of (json.unmarshal bytes)

    -- `saveRegistrationData` of the Broker.
    unfoldable pub save_registration_data :
        Bool → Bytes → RpIdentity → File → File × Result (Unit {0})
    save_registration_data writable tid rp file =
        write_record json writable (put_info (info_of tid rp) (stored file)) file

    -- `loadRegistrationData` of the Broker.
    unfoldable pub load_registration_data : File → Result (List BrokerRpInfo)
    load_registration_data missing = ok []
    load_registration_data unreadable = err "read registration file"
    load_registration_data (content_of bytes) =
        or_err (json.unmarshal bytes) "unmarshal registration data"

    -- The signature of a record: no bytes give one without points.
    abbrev pub restore_sigma : Bytes → Result PsSignMsg
    restore_sigma [] = ok (record { sigma1 = none; sigma2 = none })
    restore_sigma (c ∷ bytes) = rename_err "restore sigma" (from_json (c ∷ bytes))

    abbrev pub restored : BrokerRpInfo → PsSignMsg → RpIdentity
    restored info sigma = record {
      tid = info.tid;
      domain_cred = record { domain = info.domain; sigma = some sigma };
      callback_url = info.callback_url;
      scopes = info.scopes;
      user_store = some [];
      rp_dh_pks = info.rp_dh_pks;
    }

    -- A step of the loop of `restoreRPIdentities`: a record that fails ends the loop, behind those
    -- before it.
    abbrev pub restore_one :
        Dict RpIdentity
        → BrokerRpInfo
        → Result PsSignMsg
        → (Dict RpIdentity → Dict RpIdentity × Result (Unit {0}))
        → Dict RpIdentity × Result (Unit {0})
    restore_one rps info (ok sigma) next = next (insert info.tid (restored info sigma) rps)
    restore_one rps info (err e) next = (rps, err e)
    restore_one rps info panic next = (rps, panic)

    -- `restoreRPIdentities`.
    unfoldable pub restore_rp_identities :
        Dict RpIdentity → List BrokerRpInfo → Dict RpIdentity × Result (Unit {0})
    restore_rp_identities rps [] = (rps, ok tt)
    restore_rp_identities rps (info ∷ infos) =
        restore_one rps info (restore_sigma info.sigma) (λ rps'. restore_rp_identities rps' infos)

    abbrev pub registered : RpRegisterToBrokerRequest → Bytes → PsSignMsg → RpIdentity
    registered req tid sigma = record {
      tid = tid;
      domain_cred = record { domain = req.domain; sigma = some sigma };
      callback_url = req.callback_url;
      scopes = req.scopes;
      user_store = some [];
      rp_dh_pks = req.rp_dh_pks;
    }

    -- The end of the registration, behind the decoding: a failed write is logged.
    abbrev pub enroll :
        Broker
        → Bool
        → File
        → RpRegisterToBrokerRequest
        → Bytes
        → Result PsSignMsg
        → (Broker × File) × Result Bytes
    enroll s writable file req tid (err _) = ((s, file), err "failed to unmarshal sigma")
    enroll s writable file req tid panic = ((s, file), panic)
    enroll s writable file req tid (ok sigma) =
        let rp = registered req tid sigma in
        (
          (
            record s { rp_identity = insert tid rp s.rp_identity },
            (save_registration_data writable tid rp file).0,
          ),
          ok tid,
        )

    -- `handleRegisterRP` with `getRegisterRespToBroker`, on a request that was read; `drawn` is
    -- what the random source gives for the ticket.
    unfoldable pub handle_register_rp :
        ⦃codec : Codec⦄
        → Broker
        → Bool
        → File
        → RpRegisterToBrokerRequest
        → Option Bytes
        → (Broker × File) × Result Bytes
    handle_register_rp s writable file req none =
        ((s, file), err "failed to generate random number")
    handle_register_rp ⦃codec⦄ s writable file req (some tid) =
        enroll s writable file req (codec.encode tid) (from_json req.sig1)

  -- `Scopes`.
  abbrev pub rp_scopes : List Bytes
  rp_scopes = text "username" ∷ text "email" ∷ text "sub" ∷ text "offline_access" ∷ []

  -- `getRegisterRequestToBroker`, for a server that has its refresh helper.
  unfoldable pub get_register_request_to_broker : RpServer → Bytes → RpRegisterToBrokerRequest
  get_register_request_to_broker s redirect_uri = record {
    domain = s.domain;
    sig1 = to_json s.domain_cred.sigma;
    scopes = rp_scopes;
    callback_url = redirect_uri;
    rp_dh_pks = public_keys s.refresh;
  }

  -- `registerToBroker`, where `post` is the exchange with the Broker; the save that follows, whose
  -- failure is logged, does not change the server.
  abbrev pub ticket : RpServer → Result Bytes → RpServer × Result Bytes
  ticket s (ok tid) = (record s { tid = tid }, ok tid)
  ticket s (err _) = (s, err "Broker communication failed")
  ticket s panic = (s, panic)

  unfoldable pub register_to_broker :
      RpServer → Bytes → (RpRegisterToBrokerRequest → Result Bytes) → RpServer × Result Bytes
  register_to_broker s redirect_uri post =
      ticket s (post (get_register_request_to_broker s redirect_uri))
