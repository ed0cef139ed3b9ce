-- ===== src/Broker/Delivery.antt =====
-- What a login that the Broker has finished leaves: its session is gone, and its code brings the
-- tokens.
use orionlink.Prelude.{
  ◌+◌, ◌≡◌, refl, Bool, true, false, ◌||◌, Option, none, some, Bytes, is_empty, Result, ok, err,
  panic, lookup, insert, erase, lookup-erase_self, if◌then◌else◌,
}
use orionlink.Ecc.{Bls}
use orionlink.Token.{Jwt}
use orionlink.Jwks.{UrlCodec, JwtParser}
use orionlink.Broker.Store.{Tokens, AuthorizationCode, issue_code}
use orionlink.Broker.{Broker, RpIdentity, BrokerSessionData}
use orionlink.Broker.Login.{
  LoginWorld, exchange, send_back, deliver, continue, handle_token_from_idp,
}

module _ ⦃b : Bls⦄ ⦃own : Jwt⦄ ⦃url : UrlCodec⦄ ⦃parser : JwtParser⦄ where
  -- The code's data.
  abbrev pub issued : LoginWorld → Bytes → Bytes → Bytes → Tokens → AuthorizationCode
  issued w code uid_rp tid tokens = record {
    code = code;
    user_id = uid_rp;
    rpid = tid;
    tokens = tokens;
    created_at = w.now;
    expires_at = w.now + 30000;
    used = false;
  }

  -- What a finished login has found, and the state that it leaves.
  abbrev pub Finished : Broker → LoginWorld → Bytes → Bytes → Broker → Type 0
  Finished s w session_id code after =
      (d : BrokerSessionData) × (uid_rp : Bytes) × (tokens : Tokens) × (drawn : Bytes)
      × (rp : RpIdentity) × (lookup session_id s.session_data ≡ some d)
      × (exchange w d code ≡ ok (uid_rp, tokens))
      × (w.drawn_code ≡ some drawn)
      × (lookup d.tid s.rp_identity ≡ some rp)
      × (after ≡ record s {
        codes = insert drawn (issued w drawn uid_rp d.tid tokens) s.codes;
        session_data = erase session_id s.session_data;
      })

  module _ (s : Broker) (w : LoginWorld) (session_id code page : Bytes) where
    sent :
        (d : BrokerSessionData) (uid_rp : Bytes) (tokens : Tokens) (drawn : Option Bytes)
        (found : Option RpIdentity)
        → lookup session_id s.session_data ≡ some d
        → exchange w d code ≡ ok (uid_rp, tokens)
        → w.drawn_code ≡ drawn
        → lookup d.tid s.rp_identity ≡ found
        → let after =
            send_back s w session_id d found (issue_code s.codes drawn uid_rp d.tid tokens w.now) in
          after.1 ≡ ok page → Finished s w session_id code after.0
    unfolding issue_code
    sent d uid_rp tokens none found l x n r e = cc e
    sent d uid_rp tokens (some c) none l x n r e = cc e
    sent d uid_rp tokens (some c) (some rp) l x n r e = (d, uid_rp, tokens, c, rp, l, x, n, r, refl)

    delivered :
        (d : BrokerSessionData) (r : Result (Bytes × Tokens))
        → lookup session_id s.session_data ≡ some d
        → exchange w d code ≡ r
        → (deliver s w session_id d r).1 ≡ ok page
        → Finished s w session_id code (deliver s w session_id d r).0
    delivered d (err m) l x e = cc e
    delivered d panic l x e = cc e
    delivered d (ok (uid_rp, tokens)) l x e =
        sent d uid_rp tokens w.drawn_code (lookup d.tid s.rp_identity) l x refl refl e

    continued :
        (o : Option BrokerSessionData)
        → lookup session_id s.session_data ≡ o
        → (continue s w session_id code o).1 ≡ ok page
        → Finished s w session_id code (continue s w session_id code o).0
    continued none l e = cc e
    continued (some d) l e = delivered d (exchange w d code) l refl e

    guarded :
        (missing : Bool)
        → (if missing
            then (s, err "session_id not found")
            else continue s w session_id code (lookup session_id s.session_data)).1
          ≡ ok page
        → Finished s w session_id code
            (if missing
              then (s, err "session_id not found")
              else continue s w session_id code (lookup session_id s.session_data)).0
    guarded true e = cc e
    guarded false e = continued (lookup session_id s.session_data) refl e

    pub handle_token_from_idp-Finished :
        (handle_token_from_idp s w session_id code).1 ≡ ok page
        → Finished s w session_id code (handle_token_from_idp s w session_id code).0
    unfolding handle_token_from_idp
    handle_token_from_idp-Finished e = guarded (is_empty session_id || is_empty code) e

    -- A session brings a login to its end at most once: after that the same session is refused, with
    -- any code, whatever the others answer.
    pub handle_token_from_idp-once :
        (w' : LoginWorld) (code' : Bytes)
        → (handle_token_from_idp s w session_id code).1 ≡ ok page
        → is_empty session_id ≡ false
        → is_empty code' ≡ false
        → handle_token_from_idp (handle_token_from_idp s w session_id code).0 w' session_id code'
          ≡ ((handle_token_from_idp s w session_id code).0, err "session data not found or invalid")
    unfolding handle_token_from_idp
    handle_token_from_idp-once w' code' e named full =
        let (d, uid_rp, tokens, drawn, rp, l, x, n, r, after) = handle_token_from_idp-Finished e in
        rw (after, named, full, lookup-erase_self session_id s.session_data) refl
