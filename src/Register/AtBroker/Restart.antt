-- ===== src/Register/AtBroker/Restart.antt =====
-- The Broker's file of registrations gives a Broker that is started again the RPs that it had.
use orionlink.Prelude.{
  ◌≡◌, refl, sym, ap, ◌∙◌, Bool, true, false, Option, none, some, List, [], ◌∷◌, ◌++◌, append_assoc,
  append-nil, Bytes, bytes_eq, bytes_eq_iff, length, Result, ok, err, panic, rename_err,
  if◌then◌else◌, Dict, lookup, insert, lookup-insert, arith, ◌+◌,
}
use orionlink.Ecc.{Bls, G1}
use orionlink.Wire.{Codec}
use orionlink.Cred.{PsSignMsg}
use orionlink.Cred.PsSig.{to_json, from_json}
use orionlink.Cred.PsSig.Wire.{length-pair, from_json-pair}
use orionlink.Protocol.{RpRegisterToBrokerRequest}
use orionlink.Broker.{Broker, RpIdentity}
use orionlink.Files.{File, Json}
use orionlink.Register.AtBroker.{
  BrokerRpInfo, put_info, info_of, stored, save_registration_data, load_registration_data,
  restore_sigma, restore_rp_identities, registered, enroll, handle_register_rp,
}

module _ ⦃b : Bls⦄ where
  open b use {g1}

  -- The records of a map of RPs.
  abbrev pub infos : Dict RpIdentity → List BrokerRpInfo
  infos [] = []
  infos ((tid, rp) ∷ rps) = info_of tid rp ∷ infos rps

  -- The saver does to the records what the Broker does to its map.
  infos-insert :
      (tid : Bytes) (rp : RpIdentity) (rps : Dict RpIdentity)
      → put_info (info_of tid rp) (infos rps) ≡ infos (insert tid rp rps)
  unfolding put_info insert
  infos-insert tid rp [] = refl
  infos-insert tid rp ((j, r) ∷ rps) = go (bytes_eq j tid) (infos-insert tid rp rps)
    where
      go :
          (same : Bool)
          → put_info (info_of tid rp) (infos rps) ≡ infos (insert tid rp rps)
          → (if same
              then info_of tid rp ∷ infos rps
              else info_of j r ∷ put_info (info_of tid rp) (infos rps))
            ≡ infos (if same then (tid, rp) ∷ rps else (j, r) ∷ insert tid rp rps)
      go true e = refl
      go false e = ap (λ is. info_of j r ∷ is) e

  module _ ⦃json : Json (List BrokerRpInfo)⦄ where
    -- The file holds the records of the map, or is missing for an empty one.
    abbrev pub Mirrors : File → Dict RpIdentity → Type 0
    Mirrors file rps = (load_registration_data file ≡ ok (infos rps)) × (stored file ≡ infos rps)

    save-Mirrors :
        (tid : Bytes) (rp : RpIdentity) (rps : Dict RpIdentity) (file : File)
        → Mirrors file rps
        → Mirrors (save_registration_data true tid rp file).0 (insert tid rp rps)
    unfolding save_registration_data load_registration_data
    save-Mirrors tid rp rps file (_, e) = (
      rw (json.unmarshal-marshal _, e) (ap ok (infos-insert tid rp rps)),
      rw (json.unmarshal-marshal _, e) (infos-insert tid rp rps),
    )

    -- A registration, with a file that can be written, keeps the file a mirror of the Broker's RPs,
    -- whether it succeeds or not.
    pub handle_register_rp-Mirrors :
        ⦃codec : Codec⦄
        → (s : Broker) (file : File) (req : RpRegisterToBrokerRequest) (drawn : Option Bytes)
        → Mirrors file s.rp_identity
        → let after = (handle_register_rp s true file req drawn).0 in
          Mirrors after.1 after.0.rp_identity
    unfolding handle_register_rp
    handle_register_rp-Mirrors s file req none m = m
    handle_register_rp-Mirrors ⦃codec⦄ s file req (some tid) m = go (from_json req.sig1)
      where
        go :
            (r : Result PsSignMsg)
            → let after = (enroll s true file req (codec.encode tid) r).0 in
              Mirrors after.1 after.0.rp_identity
        go (ok sigma) =
            save-Mirrors (codec.encode tid) (registered req (codec.encode tid) sigma) s.rp_identity
              file m
        go (err e) = m
        go panic = m

    -- One entry for each key, as a Go map has it.
    abbrev pub Distinct : Dict RpIdentity → Type 0
    Distinct [] = Unit
    Distinct ((tid, rp) ∷ rps) = (lookup tid rps ≡ none) × Distinct rps

    -- Every domain credential has both points.
    abbrev pub Whole : Dict RpIdentity → Type 0
    Whole [] = Unit
    Whole ((tid, rp) ∷ rps) =
        ((s1 : G1) × (s2 : G1) × (rp.domain_cred.sigma
            ≡ some (record { sigma1 = some s1; sigma2 = some s2 })))
        × Whole rps

    -- The RPs as they are after a restart, with no users yet.
    abbrev pub fresh : Dict RpIdentity → Dict RpIdentity
    fresh [] = []
    fresh ((tid, rp) ∷ rps) = (tid, record rp { tid = tid; user_store = some [] }) ∷ fresh rps

    -- No key of the second map is in the first.
    Apart : Dict RpIdentity → Dict RpIdentity → Type 0
    Apart acc [] = Unit
    Apart acc ((tid, rp) ∷ rps) = (lookup tid acc ≡ none) × Apart acc rps

    Apart-insert :
        (acc rps : Dict RpIdentity) (tid : Bytes) (rp : RpIdentity)
        → lookup tid rps ≡ none
        → Apart acc rps
        → Apart (insert tid rp acc) rps
    unfolding Apart lookup
    Apart-insert acc [] tid rp l a = tt
    Apart-insert acc ((j, r) ∷ rps) tid rp l (h, a) = (
      ground (arith, lookup-insert tid j rp acc, bytes_eq_iff tid j, bytes_eq_iff j tid),
      Apart-insert acc rps tid rp (ground arith) a,
    )

    insert-new :
        (acc : Dict RpIdentity) (tid : Bytes) (rp : RpIdentity)
        → lookup tid acc ≡ none
        → insert tid rp acc ≡ acc ++ ((tid, rp) ∷ [])
    unfolding lookup insert
    insert-new [] tid rp h = refl
    insert-new ((j, r) ∷ acc) tid rp h = ground (arith, insert-new acc tid rp)

    Apart-nil : (rps : Dict RpIdentity) → Apart [] rps
    unfolding Apart lookup
    Apart-nil [] = tt
    Apart-nil ((tid, rp) ∷ rps) = (refl, Apart-nil rps)

    restore_sigma-pair :
        (s1 s2 : G1)
        → restore_sigma (to_json (some (record { sigma1 = some s1; sigma2 = some s2 })))
          ≡ ok (record { sigma1 = some s1; sigma2 = some s2 })
    unfolding to_json
    restore_sigma-pair s1 s2 =
        go (g1.compress s1 ++ g1.compress s2) (length-pair s1 s2) (from_json-pair s1 s2)
      where
        go :
            (bytes : Bytes)
            → length bytes ≡ g1.size + g1.size
            → from_json bytes ≡ ok (record { sigma1 = some s1; sigma2 = some s2 })
            → restore_sigma bytes ≡ ok (record { sigma1 = some s1; sigma2 = some s2 })
        go [] l e = absurd (omega (arith, l, g1.size-long))
        go (c ∷ bytes) l e = ap (rename_err "restore sigma") e

    rebuilt :
        (acc rps : Dict RpIdentity)
        → Apart acc rps
        → Distinct rps
        → Whole rps
        → restore_rp_identities acc (infos rps) ≡ (acc ++ fresh rps, ok tt)
    unfolding restore_rp_identities Apart
    rebuilt acc [] a d w = rw (append-nil acc) refl
    rebuilt acc ((tid, rp) ∷ rps) (n, a) (l, d) ((s1, s2, e), w) =
        let rp' : RpIdentity = record rp { tid = tid; user_store = some [] } in
        rw (e, restore_sigma-pair s1 s2, sym e)
          (rebuilt (insert tid rp' acc) rps (Apart-insert acc rps tid rp' l a) d w
            ∙ ap (λ m. (m ++ fresh rps, ok tt)) (insert-new acc tid rp' n)
            ∙ ap (λ m. (m, ok tt)) (append_assoc acc ((tid, rp') ∷ []) (fresh rps)))

    -- From a file that mirrors a Broker's RPs, whose domain credentials have both points, a Broker
    -- that is started again restores these RPs, with no users.
    pub restore_rp_identities-Mirrors :
        (file : File) (rps : Dict RpIdentity)
        → Mirrors file rps
        → Distinct rps
        → Whole rps
        → (records : List BrokerRpInfo) × (load_registration_data file ≡ ok records)
          × (restore_rp_identities [] records ≡ (fresh rps, ok tt))
    restore_rp_identities-Mirrors file rps (e, _) d w =
        (infos rps, e, rebuilt [] rps (Apart-nil rps) d w)
