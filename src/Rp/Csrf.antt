-- ===== src/Rp/Csrf.antt =====
-- What a callback that logs a user in has checked.
use orionlink.Prelude.{
  ◌≡◌, refl, sym, ap, ◌∙◌, Bool, true, false, not, some, Bytes, bytes_eq, bytes_eq_iff, is_empty,
  Result, ok, err, panic, or_err, fail_if, rename_err, >>=-eq-ok, or_err-eq-ok, rename_err-eq-ok,
  ok_injective, fail_if-eq-ok, arith, if◌then◌else◌,
}
use orionlink.Ecc.{Bls}
use orionlink.Crypto.{Crypto}
use orionlink.Wire.{Codec}
use orionlink.Protocol.{AakeTokenToRpResponse}
use orionlink.Jwks.{UrlCodec, JwtParser}
use orionlink.Rp.Store.{RpUserState, TempAakeState, save_user_state, get_aake_state}
use orionlink.Rp.{RpServer}
use orionlink.Rp.Callback.{
  RpSession, CallbackWorld, request_token_from_broker, read_user, check_callback, log_in, next_page,
  handle_callback,
}

module _ ⦃b : Bls⦄ ⦃h : Crypto⦄ ⦃codec : Codec⦄ ⦃url : UrlCodec⦄ ⦃parser : JwtParser⦄ (s : RpServer)
    (w : CallbackWorld) (opened : Result RpSession) (state code : Bytes) where
  -- The session is one that started the login with this state; the user is read, under the K_S of
  -- that state, from the Broker's answer for the code.
  abbrev pub Checked : RpSession → RpUserState → Type 0
  Checked sess u =
      (opened ≡ ok sess)
      × (sess.state ≡ some state)
      × (is_empty state ≡ false)
      × ((resp : AakeTokenToRpResponse) × (aake : TempAakeState) × (request_token_from_broker w code
            ≡ ok resp)
          × (get_aake_state s.store state ≡ some aake)
          × (u.ks ≡ aake.ks)
          × (read_user w aake.ks resp ≡ ok u.user))

  check_callback-Checked :
      (sess : RpSession) (u : RpUserState)
      → check_callback s w opened state code ≡ ok (sess, u)
      → Checked sess u
  unfolding check_callback
  check_callback-Checked sess u e =
      let (s1, e1, k1) = >>=-eq-ok (rename_err "Failed to get session" opened) _ e in
      let (saved, e2, k2) = >>=-eq-ok (or_err s1.state "no state on session") _ k1 in
      let (_, e3, k3) = >>=-eq-ok (fail_if (is_empty saved) "no state on session") _ k2 in
      let (_, e4, k4) =
        >>=-eq-ok (fail_if (not (bytes_eq state saved)) "state mismatch — possible CSRF") _ k3 in
      let (_, e5, k5) = >>=-eq-ok (fail_if (is_empty code) "code is empty") _ k4 in
      let (resp, e6, k6) =
        >>=-eq-ok
          (rename_err "failed to request token from broker" (request_token_from_broker w code)) _
          k5 in
      let (aake, e7, k7) =
        >>=-eq-ok (or_err (get_aake_state s.store state) "AAKE state not found") _ k6 in
      let (user, e8, k8) = >>=-eq-ok (read_user w aake.ks resp) _ k7 in
      let same : state ≡ saved =
        (bytes_eq_iff state saved).0 (ground (arith, fail_if-eq-ok _ _ e4)) in
      let result : ◌≡◌ {A = RpSession × RpUserState}
          (s1, record { user = user; ks = aake.ks; access_token = resp.access_token }) (sess, u) =
        ok_injective k8 in
      let s1_eq : s1 ≡ sess = ap (λ x. x.0) result in
      let ks_eq : u.ks ≡ aake.ks = ap (λ x. x.1.ks) (sym result) in
      let user_eq : user ≡ u.user = ap (λ x. x.1.user) result in
      (
        rename_err-eq-ok _ _ e1 ∙ ap ok s1_eq,
        ap (λ x. x.state) (sym s1_eq) ∙ or_err-eq-ok _ _ e2 ∙ ap some (sym same),
        ap is_empty same ∙ fail_if-eq-ok _ _ e3,
        (resp, aake, rename_err-eq-ok _ _ e6, or_err-eq-ok _ _ e7, ks_eq, e8 ∙ ap ok user_eq),
      )

  -- A callback that logs a user in came with the browser's session of a login that was started with
  -- the same state, which is not empty; the user comes from the Broker's answer for the code, read
  -- under the K_S that the RP keeps for that state; it is in the session, and its record is stored.
  pub handle_callback-Checked :
      (next start_time : Bytes) (logged : RpSession) (page : Bytes)
      → (handle_callback s w opened state code next start_time).1 ≡ ok (logged, page)
      → (sess : RpSession) × (u : RpUserState) × Checked sess u
        × (logged ≡ record sess { rpuser = some u.user })
        × ((handle_callback s w opened state code next start_time).0
            ≡ record s { store = save_user_state s.store u.user.uid (some u) })
  unfolding handle_callback
  handle_callback-Checked next start_time logged page e =
      go (check_callback s w opened state code) refl e
    where
      go :
          (r : Result (RpSession × RpUserState))
          → check_callback s w opened state code ≡ r
          → (log_in s w next start_time r).1 ≡ ok (logged, page)
          → (sess : RpSession) × (u : RpUserState) × Checked sess u
            × (logged ≡ record sess { rpuser = some u.user })
            × ((log_in s w next start_time (check_callback s w opened state code)).0
                ≡ record s { store = save_user_state s.store u.user.uid (some u) })
      go (err m) c e' = cc e'
      go panic c e' = cc e'
      go (ok (sess, u)) c e' =
          (sess, u, check_callback-Checked sess u c, saved w.savable e', rw c refl)
        where
          saved :
              (savable : Bool)
              → if◌then◌else◌ {A = Result (RpSession × Bytes)} savable
                  (ok (record sess { rpuser = some u.user }, next_page w next start_time))
                  (err "session not saved")
                ≡ ok (logged, page)
              → logged ≡ record sess { rpuser = some u.user }
          saved true k = cc k
          saved false k = cc k
