-- ===== src/Ratchet/Relay.antt =====
-- Broker/refresh.go: the Broker's relay, which numbers the requests of each RP and picks the RP's
-- public key of that number as the header. The exchange with the IdP over HTTP is a parameter.
use orionlink.Prelude.{
  ℕ, ◌+◌, ◌≤◌, ◌<◌, ◌≡◌, ◌≢◌, ◌⊎◌, ◌%◌, refl, sym, Bool, true, false, Option, none, some, List, [],
  ◌∷◌, Bytes, Slice, is_empty, length, get_elem?, get_elem?-lt, Result, ok, err, panic,
  if◌then◌else◌, Dict, lookup, insert, lookup-insert_self, arith, inl, inr,
}
use mathlib.Core.Path.{subst}
use orionlink.Protocol.{RefreshTokenFromBrokerRequest, RefreshTokenToRpResponse}

-- `brokerRefreshState`.
pub record BrokerRefresh : Type 0 where
  pub seq : ℕ
  pub rp_dh_pks : List Bytes
  pub last_idp_hdr : Slice

abbrev pub first_state : List Bytes → BrokerRefresh
first_state pks = record { seq = 0; rp_dh_pks = pks; last_idp_hdr = none }

abbrev pub no_keys : List Bytes → Bool
no_keys [] = true
no_keys (_ ∷ _) = false

-- `InitForRP`.
unfoldable pub init_for_rp : Dict BrokerRefresh → Bytes → List Bytes → Dict BrokerRefresh
init_for_rp st tid pks =
    if is_empty tid then st else if no_keys pks then st else insert tid (first_state pks) st

-- `ensureState`: the state, and the map with it.
unfoldable pub ensure_state :
    Dict BrokerRefresh → Bytes → List Bytes → Result (BrokerRefresh × Dict BrokerRefresh)
ensure_state st tid pks =
    let fresh =
      if no_keys pks
      then err "missing rp_dh_pks for tid"
      else ok (first_state pks, insert tid (first_state pks) st) in
    elim (lookup tid st) [
      | some s ↦ if no_keys s.rp_dh_pks then fresh else ok (s, st)
      | none ↦ fresh
    ]

-- The state behind an answer of the IdP, with the 32-bit counter.
abbrev pub answered : BrokerRefresh → RefreshTokenToRpResponse → BrokerRefresh
answered s resp = record {
  seq = (s.seq + 1) % 4294967296;
  rp_dh_pks = s.rp_dh_pks;
  last_idp_hdr = resp.hdr;
}

-- What the map and the result are behind the exchange.
abbrev pub relay :
    Dict BrokerRefresh
    → Bytes
    → BrokerRefresh
    → Result RefreshTokenToRpResponse
    → Dict BrokerRefresh × Result RefreshTokenToRpResponse
relay st tid s (ok resp) = (insert tid (answered s resp) st, ok resp)
relay st tid s (err e) = (st, err e)
relay st tid s panic = (st, panic)

-- `RefreshWithIdP` on a context: `post` is the exchange with the IdP.
module _ (post : RefreshTokenFromBrokerRequest → Result RefreshTokenToRpResponse) where
  unfoldable pub refresh_with_idp :
      Dict BrokerRefresh
      → Bytes
      → List Bytes
      → Bytes
      → Dict BrokerRefresh × Result RefreshTokenToRpResponse
  refresh_with_idp st tid pks token =
      if is_empty tid
      then (st, err "missing tid")
      else if is_empty token
      then (st, err "missing refresh token")
      else elim (ensure_state st tid pks) [
        | err e ↦ (st, err e)
        | panic ↦ (st, panic)
        | ok (s, st') ↦ elim (get_elem? s.rp_dh_pks s.seq) [
          | none ↦ (st', err "rp dh key list exhausted")
          | some hdr ↦
              relay st' tid s (post (record { hdr = some hdr; seq = s.seq; refresh_token = token }))
        ]
      ]

  -- A state's counter is a 32-bit number that is at most the number of its keys.
  abbrev pub InBounds : BrokerRefresh → Type 0
  InBounds s = (s.seq ≤ length s.rp_dh_pks) × (length s.rp_dh_pks < 4294967296)

  -- What a refresh does of an RP with the state `s`: nothing, without an answer, or the IdP answers
  -- the request that has the counter, the public key of that number and the token, and the counter
  -- is one more, and in bounds.
  abbrev pub Relayed :
      Dict BrokerRefresh
      → Bytes
      → Bytes
      → BrokerRefresh
      → Dict BrokerRefresh × Result RefreshTokenToRpResponse
      → Type 0
  Relayed st tid token s after =
      ((after.0 ≡ st) × ((resp : RefreshTokenToRpResponse) → after.1 ≢ ok resp))
      ⊎ ((hdr : Bytes) × (resp : RefreshTokenToRpResponse) × (s' : BrokerRefresh) × (get_elem?
              s.rp_dh_pks s.seq
            ≡ some hdr)
          × (post (record { hdr = some hdr; seq = s.seq; refresh_token = token }) ≡ ok resp)
          × (after.1 ≡ ok resp)
          × (lookup tid after.0 ≡ some s')
          × (s'.seq ≡ s.seq + 1)
          × InBounds s')

  relay-Relayed :
      (st : Dict BrokerRefresh) (tid token : Bytes) (s : BrokerRefresh) (hdr : Bytes)
      (r : Result RefreshTokenToRpResponse)
      → get_elem? s.rp_dh_pks s.seq ≡ some hdr
      → post (record { hdr = some hdr; seq = s.seq; refresh_token = token }) ≡ r
      → InBounds s
      → Relayed st tid token s (relay st tid s r)
  relay-Relayed st tid token s hdr (ok resp) found h bound = inr (
    hdr,
    resp,
    answered s resp,
    found,
    h,
    refl,
    lookup-insert_self tid _ st,
    counted,
    rw counted (omega (arith, get_elem?-lt s.rp_dh_pks s.seq found), bound.1),
  )
    where
      counted : (s.seq + 1) % 4294967296 ≡ s.seq + 1
      counted = omega (arith, get_elem?-lt s.rp_dh_pks s.seq found, bound.0, bound.1)
  relay-Relayed st tid token s hdr (err e) found h bound = inl (refl, λ resp. cc)
  relay-Relayed st tid token s hdr panic found h bound = inl (refl, λ resp. cc)

  -- A refresh of an RP that is known with its keys, and whose counter is in bounds, either changes
  -- nothing and gives no answer, or gives the IdP's answer to the request with the counter, the
  -- RP's public key of that number and the token; then the counter is one more, and in bounds.
  pub refresh_with_idp-Relayed :
      (st : Dict BrokerRefresh) (tid token : Bytes) (pks : List Bytes) (s : BrokerRefresh)
      → lookup tid st ≡ some s
      → no_keys s.rp_dh_pks ≡ false
      → is_empty tid ≡ false
      → is_empty token ≡ false
      → InBounds s
      → Relayed st tid token s (refresh_with_idp st tid pks token)
  unfolding refresh_with_idp ensure_state
  refresh_with_idp-Relayed st tid token pks s found some_keys named full bound =
      go (get_elem? s.rp_dh_pks s.seq) refl
    where
      go :
          (hdr : Option Bytes)
          → get_elem? s.rp_dh_pks s.seq ≡ hdr
          → Relayed st tid token s (refresh_with_idp st tid pks token)
      go none at = rw (named, full, found, some_keys, at) (inl (refl, λ resp. cc))
      go (some hdr) at =
          subst (Relayed st tid token s) (sym (rw (named, full, found, some_keys, at) refl))
            (relay-Relayed st tid token s hdr _ at refl bound)
