-- ===== src/Register/Record/Auto.antt =====
-- `AutoRegister` of RP/bench_support.go, which registers an RP at start-up.
use orionlink.Prelude.{
  ℕ, zero, suc, ◌+◌, Bool, true, false, not, ◌&&◌, Bytes, is_empty, Result, ok, err, panic,
  if◌then◌else◌,
}
use orionlink.Ecc.{Bls}
use orionlink.Crypto.{Crypto}
use orionlink.Cred.{Rng}
use orionlink.Files.{File, Json}
use orionlink.Protocol.{RpRegisterToIdpRequest, RpRegisterToIdpResponse, RpRegisterToBrokerRequest}
use orionlink.Rp.{RpServer}
use orionlink.Register.{register_to_idp}
use orionlink.Register.AtBroker.{register_to_broker}
use orionlink.Register.Record.{RegistrationData, save_record, load_record}

module _ ⦃b : Bls⦄ ⦃h : Crypto⦄ where
  module _ ⦃json : Json RegistrationData⦄ where
    -- What one attempt of `AutoRegister` meets: the two exchanges, the random source, whether the
    -- file can be written, and whether the time is up behind it.
    pub record Attempt : Type 0 where
      pub post_idp : RpRegisterToIdpRequest → Result RpRegisterToIdpResponse
      pub post_broker : RpRegisterToBrokerRequest → Result Bytes
      pub rng : Rng
      pub writable : Bool
      pub expired : Bool

    -- `registerToBroker` with its save, whose failure is logged.
    abbrev pub saved_after :
        Bool → File → RpServer × Result Bytes → (RpServer × File) × Result (Unit {0})
    saved_after writable file (s, ok _) = ((s, (save_record writable s file).0), ok tt)
    saved_after writable file (s, err e) = ((s, file), err e)
    saved_after writable file (s, panic) = ((s, file), panic)

    -- One attempt behind the registration at the IdP, and one attempt.
    abbrev pub then_broker :
        Bytes
        → Attempt
        → File
        → RpServer × Result (Unit {0})
        → (RpServer × File) × Result (Unit {0})
    then_broker redirect_uri w file (s, ok _) =
        saved_after w.writable file (register_to_broker s redirect_uri w.post_broker)
    then_broker redirect_uri w file (s, err e) = ((s, file), err e)
    then_broker redirect_uri w file (s, panic) = ((s, file), panic)

    unfoldable pub attempt :
        Bytes → Attempt → RpServer × File → (RpServer × File) × Result (Unit {0})
    attempt redirect_uri w (s, file) =
        then_broker redirect_uri w file (register_to_idp s w.post_idp w.rng)

    -- What follows an attempt: the end, or the attempts that are left.
    abbrev pub follow :
        Bool
        → (RpServer × File) × Result (Unit {0})
        → (RpServer × File) × Result (Unit {0})
        → (RpServer × File) × Result (Unit {0})
    follow expired (st, ok _) rest = (st, ok tt)
    follow expired (st, panic) rest = (st, panic)
    follow true (st, err _) rest = (st, err "auto-registration gave up")
    follow false (st, err _) rest = rest

    -- The loop of `AutoRegister` with `n` attempts left, from the attempt `i` on.
    unfoldable pub retry :
        Bytes → ℕ → ℕ → (ℕ → Attempt) → RpServer × File → (RpServer × File) × Result (Unit {0})
    retry redirect_uri zero i ws st = (st, err "auto-registration exhausted retries")
    retry redirect_uri (suc n) i ws st =
        let a = attempt redirect_uri (ws i) st in
        let rest = retry redirect_uri n (i + 1) ws a.0 in follow (ws i).expired a rest

    -- Whether `AutoRegister` finds a registration that is complete.
    abbrev pub is_complete : Result RegistrationData → Bool
    is_complete (ok d) = d.idp_registered && (d.broker_registered && not (is_empty d.tid))
    is_complete (err _) = false
    is_complete panic = false

    -- `AutoRegister` where it is enabled, until its goroutine ends.
    unfoldable pub auto_register :
        Bytes → (ℕ → Attempt) → RpServer × File → (RpServer × File) × Result (Unit {0})
    auto_register redirect_uri ws (s, file) =
        let loaded = load_record file s in
        let rest = retry redirect_uri 10 0 ws (loaded.0, file) in
        if is_complete loaded.1 then ((loaded.0, file), ok tt) else rest
