-- ===== src/Ratchet/Rp.antt =====
-- RP/refresh.go: the RP's end of the refresh ratchet, with its precomputed key pairs.
use orionlink.Prelude.{
  ℕ, Bool, true, Option, none, some, List, map, Bytes, is_empty, content, Result, ok, err, panic,
  ◌>>=◌, ◌>>◌, fail_if, deref, or_err, get_elem?, length, leb, if◌then◌else◌,
}
use orionlink.Ecc.{Bls, Scalar, G1}
use orionlink.Crypto.{Crypto}
use orionlink.Wire.{bytes_to_point}
use orionlink.Session.{dh, aes_gcm_decrypt}
use orionlink.Protocol.{RefreshTokenToRpResponse}
use orionlink.Ratchet.{PayloadJson, refresh_aad, kdf_rk, kdf_ck}
use orionlink.Ratchet.Idp.{is_new}

module _ ⦃b : Bls⦄ where
  -- `RefreshTokenHelper` of the RP.
  pub record RpRefresh : Type 0 where
    pub rsk : List Scalar
    pub rpk : List G1
    pub rk : Bytes
    pub ck : Bytes
    pub seeded : Bool
    pub dh_b : Option G1

  -- `PublicKeys`.
  unfoldable pub public_keys : RpRefresh → List Bytes
  public_keys s = map b.g1.compress s.rpk

  abbrev pub seed_rp : Bytes → RpRefresh → RpRefresh
  seed_rp ks s = record {
    rsk = s.rsk;
    rpk = s.rpk;
    rk = if s.seeded then s.rk else ks;
    ck = s.ck;
    seeded = true;
    dh_b = s.dh_b;
  }

  module _ ⦃h : Crypto⦄ where
    abbrev pub with_keys : RpRefresh → Bytes → Bytes → Option G1 → RpRefresh
    with_keys s rk ck dh_b = record {
      rsk = s.rsk;
      rpk = s.rpk;
      rk = rk;
      ck = ck;
      seeded = s.seeded;
      dh_b = dh_b;
    }

    -- The step of the ratchet for a header that was not seen last.
    unfoldable pub turn_rp : RpRefresh → ℕ → G1 → Result RpRefresh
    turn_rp s seq pk =
        if is_new s.dh_b pk
        then (deref (get_elem? s.rsk seq) >>= λ sk. dh (some sk) (some pk) >>= λ shared.
            let keys = kdf_rk s.rk shared in ok (with_keys s keys.0 keys.1 (some pk)))
        else ok s

    module _ ⦃json : PayloadJson⦄ where
      -- The decryption, after the ratchet has moved.
      unfoldable pub open_response : RpRefresh → Bytes → RefreshTokenToRpResponse → Result Bytes
      open_response s mk resp = do
        pk ← deref (get_elem? s.rpk resp.seq)
        pt ← aes_gcm_decrypt mk (content resp.c) (refresh_aad resp.seq (b.g1.compress pk))
        payload ← or_err (json.unmarshal pt) "invalid payload"
        fail_if (is_empty payload.0) "empty access_token in payload"
        ok payload.0

      -- The decryption behind the step of the ratchet, of which `s` was the state before.
      abbrev pub finish_rp :
          RpRefresh → G1 → RefreshTokenToRpResponse → Result RpRefresh → RpRefresh × Result Bytes
      finish_rp s pk resp (ok s') =
          let keys = kdf_ck s'.ck in
          let s'' = with_keys s' s'.rk keys.0 s'.dh_b in (s'', open_response s'' keys.1 resp)
      finish_rp s pk resp (err e) = (with_keys s s.rk s.ck (some pk), err e)
      finish_rp s pk resp panic = (with_keys s s.rk s.ck (some pk), panic)

      -- `DecryptResponse`, with the persisted K_S.
      unfoldable pub decrypt_response :
          RpRefresh → Bytes → RefreshTokenToRpResponse → RpRefresh × Result Bytes
      decrypt_response s ks resp =
          if leb (length s.rsk) resp.seq
          then (seed_rp ks s, err "seq out of range")
          else elim (bytes_to_point b.g1 resp.hdr) [
            | ok (some pk) ↦ finish_rp (seed_rp ks s) pk resp (turn_rp (seed_rp ks s) resp.seq pk)
            | ok none ↦ (seed_rp ks s, err "invalid hdr")
            | err _ ↦ (seed_rp ks s, err "invalid hdr")
            | panic ↦ (seed_rp ks s, panic)
          ]
