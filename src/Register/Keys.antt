-- ===== src/Register/Keys.antt =====
-- The IdP's public keys on their way to an RP: `handleGetCredVk` of IdP/handler.go, `FromJson` of
-- internal/protocol/rpIdp.go and `getVks` of RP/handler.go.
use orionlink.Prelude.{
  ◌≡◌, refl, ap, ℕ, not, Option, none, some, List, [], ◌∷◌, Bytes, Slice, content, is_empty, length,
  ◌==◌, get_elem?, Result, ok, err, panic, ◌>>=◌, ◌>>◌, deref, fail_if, if◌then◌else◌,
}
use orionlink.Ecc.{Bls, Curve, G1, G2}
use orionlink.Wire.{point_to_bytes, bytes_to_point}
use orionlink.Wire.RoundTrip.{bytes_to_point-point_to_bytes}
use orionlink.Cred.{PsPublicKey}
use orionlink.Protocol.{PsPublicKeyResponse, IdpCredKeyResponse}
use orionlink.Pok.{no_error}
use orionlink.Rp.{RpServer}

module _ ⦃b : Bls⦄ where
  -- `xs[i]`, which panics past the end.
  abbrev pub elem_at {ℓ} : {A : Type ℓ} → List A → ℕ → Result A
  elem_at xs i = deref (get_elem? xs i)

  -- The answer for one key: its first point for the first key, and its first two for the second.
  abbrev pub one_message : PsPublicKey → Result PsPublicKeyResponse
  one_message vk = do
    y ← elem_at vk.yn 0
    yhat ← elem_at vk.yhatn 0
    ok (record {
      yn = point_to_bytes b.g1 y ∷ [];
      xhat = point_to_bytes b.g2 vk.xhat;
      yhatn = point_to_bytes b.g2 yhat ∷ [];
    })

  abbrev pub two_messages : PsPublicKey → Result PsPublicKeyResponse
  two_messages vk = do
    y ← elem_at vk.yn 0
    y' ← elem_at vk.yn 1
    yhat ← elem_at vk.yhatn 0
    yhat' ← elem_at vk.yhatn 1
    ok (record {
      yn = point_to_bytes b.g1 y ∷ point_to_bytes b.g1 y' ∷ [];
      xhat = point_to_bytes b.g2 vk.xhat;
      yhatn = point_to_bytes b.g2 yhat ∷ point_to_bytes b.g2 yhat' ∷ [];
    })

  -- `handleGetCredVk`, for an IdP that has its credential keys, with the identity's public key.
  unfoldable pub handle_get_cred_vk :
      PsPublicKey → PsPublicKey → Option G1 → Result IdpCredKeyResponse
  handle_get_cred_vk vk1 vk2 identity_pk = do
    r1 ← one_message vk1
    r2 ← two_messages vk2
    ok (record { vk1 = r1; vk2 = r2; aake_pk = point_to_bytes b.g1 identity_pk })

  -- `x, _ := comm.BytesToG1(bytes)`, and the same in the second group.
  abbrev pub point_or_nil : (C : Curve b.field) → Slice → Option C.Point
  point_or_nil C bytes = no_error (bytes_to_point C bytes)

  -- `FromJson`: the lists of the second group's points are read without a look at their lengths.
  unfoldable pub keys_from_json : IdpCredKeyResponse → Result (PsPublicKey × PsPublicKey)
  keys_from_json p = do
    fail_if (not (length p.vk1.yn == 1)) "Invalid Vk1 Yn length"
    y1 ← elem_at p.vk1.yn 0
    yhat1 ← elem_at p.vk1.yhatn 0
    fail_if (not (length p.vk2.yn == 2)) "Invalid Vk2"
    y2 ← elem_at p.vk2.yn 0
    y3 ← elem_at p.vk2.yn 1
    yhat2 ← elem_at p.vk2.yhatn 0
    yhat3 ← elem_at p.vk2.yhatn 1
    ok (
      record {
        yn = point_or_nil b.g1 y1 ∷ [];
        xhat = point_or_nil b.g2 p.vk1.xhat;
        yhatn = point_or_nil b.g2 yhat1 ∷ [];
      },
      record {
        yn = point_or_nil b.g1 y2 ∷ point_or_nil b.g1 y3 ∷ [];
        xhat = point_or_nil b.g2 p.vk2.xhat;
        yhatn = point_or_nil b.g2 yhat2 ∷ point_or_nil b.g2 yhat3 ∷ [];
      },
    )

  -- The IdP's identity key that `getVks` keeps: the one that is published, if it decodes and is
  -- another than the one that the RP has.
  abbrev pub adopted : Option G1 → Result (Option G1) → Option G1
  adopted old (ok (some pk)) = elim old [
    | none ↦ some pk
    | some p ↦ if b.g1.is_equal p pk then some p else some pk
  ]
  adopted old (ok none) = old
  adopted old (err _) = old
  adopted old panic = old

  abbrev pub adopt : Option G1 → Slice → Option G1
  adopt old bytes =
      if is_empty (content bytes) then old else adopted old (bytes_to_point b.g1 bytes)

  -- `getVks` and `Init`, with the IdP's answer and the RP's redirect address: the server has the
  -- IdP's identity key also if its credential keys do not decode.
  abbrev pub initialized :
      RpServer → Bytes → Result (PsPublicKey × PsPublicKey) → RpServer × Result (Unit {0})
  initialized s domain (ok (vk1, vk2)) =
      (record s { domain = domain; vk1 = some vk1; vk2 = some vk2 }, ok tt)
  initialized s domain (err _) = (s, err "convert bytes to G1 points")
  initialized s domain panic = (s, panic)

  abbrev pub fetched : RpServer → Bytes → Result IdpCredKeyResponse → RpServer × Result (Unit {0})
  fetched s domain (err _) = (s, err "failed to connect to IdP server")
  fetched s domain panic = (s, panic)
  fetched s domain (ok resp) =
      initialized (record s { idp_aake_pk = adopt s.idp_aake_pk resp.aake_pk }) domain
        (keys_from_json resp)

  unfoldable pub get_vks :
      RpServer → Bytes → Result IdpCredKeyResponse → RpServer × Result (Unit {0})
  get_vks s domain answer = fetched s domain answer

  same_point : (C : Curve b.field) (p : Option C.Point) → point_or_nil C (point_to_bytes C p) ≡ p
  same_point C p = ap no_error (bytes_to_point-point_to_bytes C p)

  -- The keys that the IdP publishes, one for one attribute and one for two, the RP reads as they
  -- are, points that are nil included.
  pub keys_from_json-handle_get_cred_vk :
      (y1 y2 y3 : Option G1) (x1 x2 yhat1 yhat2 yhat3 : Option G2) (pk : Option G1)
      → let vk1 : PsPublicKey = record { yn = y1 ∷ []; xhat = x1; yhatn = yhat1 ∷ [] } in
        let vk2 : PsPublicKey = record {
          yn = y2 ∷ y3 ∷ [];
          xhat = x2;
          yhatn = yhat2 ∷ yhat3 ∷ [];
        } in
        (handle_get_cred_vk vk1 vk2 pk >>= keys_from_json) ≡ ok (vk1, vk2)
  unfolding handle_get_cred_vk keys_from_json
  keys_from_json-handle_get_cred_vk y1 y2 y3 x1 x2 yhat1 yhat2 yhat3 pk =
      rw
        (
          same_point b.g1 y1,
          same_point b.g1 y2,
          same_point b.g1 y3,
          same_point b.g2 x1,
          same_point b.g2 x2,
          same_point b.g2 yhat1,
          same_point b.g2 yhat2,
          same_point b.g2 yhat3,
        )
        refl
