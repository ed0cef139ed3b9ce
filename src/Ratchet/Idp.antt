-- ===== src/Ratchet/Idp.antt =====
-- IdP/refresh.go: the IdP's end of the refresh ratchet. An operation returns the state it leaves,
-- also when it fails, with its result.
use orionlink.Prelude.{
  ℕ, Bool, true, not, Option, none, some, List, [], ◌∷◌, Bytes, is_empty, content, Result, ok, err,
  panic, ◌>>=◌, if◌then◌else◌,
}
use orionlink.Ecc.{Bls, Scalar, G1}
use orionlink.Crypto.{Crypto}
use orionlink.Wire.{bytes_to_point}
use orionlink.Session.{generate_emp_key, dh, aes_gcm_encrypt}
use orionlink.Token.{Jwt, validate_refresh_token, generate_access_token}
use orionlink.Protocol.{RefreshTokenFromBrokerRequest, RefreshTokenToRpResponse}
use orionlink.Ratchet.{PayloadJson, refresh_aad, kdf_rk, kdf_ck}

module _ ⦃b : Bls⦄ where
  -- `RefreshTokenHelper` of the IdP, without its token helper.
  pub record IdpRefresh : Type 0 where
    pub rk : Bytes
    pub ck : Bytes
    pub seeded : Bool
    pub dh_a : Option G1
    pub isk : Scalar
    pub ipk : G1

  -- What a request reads of its surroundings: the persisted K_S, a draw of the random source for
  -- a key and one for a nonce, the time, and the token helper's issuer.
  pub record World : Type 0 where
    pub ks : Bytes
    pub drawn : Option Scalar
    pub nonce : Option Bytes
    pub now : ℕ
    pub issuer : Bytes

  -- `!h.dhA.IsEqual(pk)`, or there is none.
  abbrev pub is_new : Option G1 → G1 → Bool
  is_new none pk = true
  is_new (some old) pk = not (b.g1.is_equal old pk)

  abbrev pub seed : Bytes → IdpRefresh → IdpRefresh
  seed ks s = record {
    rk = if s.seeded then s.rk else ks;
    ck = s.ck;
    seeded = true;
    dh_a = s.dh_a;
    isk = s.isk;
    ipk = s.ipk;
  }

  module _ ⦃h : Crypto⦄ where
    -- The step of the ratchet for a header that was not seen last: a fresh key pair, and new root
    -- and chain keys.
    unfoldable pub turn : IdpRefresh → G1 → Option Scalar → Result IdpRefresh
    turn s pk drawn =
        if is_new s.dh_a pk
        then (generate_emp_key drawn >>= λ (isk, ipk). dh (some isk) (some pk) >>= λ shared.
            let keys = kdf_rk s.rk shared in
            ok (record {
              rk = keys.0;
              ck = keys.1;
              seeded = s.seeded;
              dh_a = some pk;
              isk = isk;
              ipk = ipk;
            }))
        else ok s

    -- `h.dhA = rpPk`, which a step that fails leaves behind.
    abbrev pub seen : IdpRefresh → G1 → IdpRefresh
    seen s pk = record {
      rk = s.rk;
      ck = s.ck;
      seeded = s.seeded;
      dh_a = some pk;
      isk = s.isk;
      ipk = s.ipk;
    }

    abbrev pub with_ck : IdpRefresh → Bytes → IdpRefresh
    with_ck s ck = record {
      rk = s.rk;
      ck = ck;
      seeded = s.seeded;
      dh_a = s.dh_a;
      isk = s.isk;
      ipk = s.ipk;
    }

    -- `claims.Audience[0]`, if there is one.
    abbrev pub first : List Bytes → Bytes
    first [] = []
    first (a ∷ _) = a

    module _ ⦃jwt : Jwt⦄ ⦃json : PayloadJson⦄ where
      -- The rest of the request, after the ratchet has moved.
      unfoldable pub respond :
          IdpRefresh
          → Bytes
          → World
          → RefreshTokenFromBrokerRequest
          → Result RefreshTokenToRpResponse
      respond s mk w req = do
        (scope, reg) ← validate_refresh_token w.now req.refresh_token
        token ← generate_access_token w.issuer w.now reg.subject scope (first reg.audience)
        c ←
            aes_gcm_encrypt mk (json.marshal token 1800) (refresh_aad req.seq (content req.hdr))
              w.nonce
        ok (record { hdr = some (b.g1.compress s.ipk); seq = req.seq; c = some c })

      -- The request behind the step of the ratchet, of which `s` was the state before.
      abbrev pub finish :
          IdpRefresh
          → G1
          → World
          → RefreshTokenFromBrokerRequest
          → Result IdpRefresh
          → IdpRefresh × Result RefreshTokenToRpResponse
      finish s pk w req (ok s') =
          let keys = kdf_ck s'.ck in (with_ck s' keys.0, respond (with_ck s' keys.0) keys.1 w req)
      finish s pk w req (err e) = (seen s pk, err e)
      finish s pk w req panic = (seen s pk, panic)

      -- `HandleBrokerRequest`, for a helper that has its token helper.
      unfoldable pub handle_broker_request :
          IdpRefresh
          → World
          → RefreshTokenFromBrokerRequest
          → IdpRefresh × Result RefreshTokenToRpResponse
      handle_broker_request s w req =
          if is_empty (content req.hdr)
          then (s, err "missing hdr")
          else if is_empty req.refresh_token
          then (s, err "missing refresh token")
          else elim (bytes_to_point b.g1 req.hdr) [
            | ok (some pk) ↦ finish (seed w.ks s) pk w req (turn (seed w.ks s) pk w.drawn)
            | ok none ↦ (seed w.ks s, err "invalid hdr bytes")
            | err _ ↦ (seed w.ks s, err "invalid hdr bytes")
            | panic ↦ (seed w.ks s, panic)
          ]
