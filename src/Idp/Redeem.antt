-- ===== src/Idp/Redeem.antt =====
-- When the IdP issues tokens.
use orionlink.Prelude.{
  ◌≤◌, ◌≡◌, refl, ap, ◌∙◌, Bool, true, false, Option, none, some, List, [], ◌∷◌, ◌++◌, Bytes, ltb,
  Result, ok, err, panic, >>=-eq-ok, rename_err, deref, is_some, if◌then◌else◌, Dict, lookup, erase,
  lookup-erase_self, lookup-insert_self, arith,
}
use mathlib.Core.Path.{subst}
use orionlink.Ecc.{Bls}
use orionlink.Crypto.{Crypto}
use orionlink.Wire.{Codec}
use orionlink.Protocol.{AakeTokenRequest, AakeTokenResponse}
use orionlink.Pok.{ProofPok}
use orionlink.Token.{Jwt}
use orionlink.Idp.Store.{
  AuthorizationCode, AuthorizedUserData, checked, get_code, delete_code, add, get_all, records,
}
use orionlink.Idp.{
  IdpServer, Surroundings, admit, generate_tokens, issue, save_session_ks, recorded, conclude,
  proceed, start, handle_token,
}
use orionlink.Idp.Admission.{Admitted, admit-Admitted}

lookup-delete_code :
    (codes : Dict AuthorizationCode) (code : Bytes) → lookup code (delete_code codes code) ≡ none
unfolding delete_code
lookup-delete_code codes code = go (lookup code codes) refl
  where
    go :
        (o : Option AuthorizationCode)
        → lookup code codes ≡ o
        → lookup code (delete_code codes code) ≡ none
    go none h = rw (h, is_some) h
    go (some ac) h = rw h (lookup-erase_self code codes)

module _ ⦃b : Bls⦄ ⦃h : Crypto⦄ ⦃codec : Codec⦄ where
  module _ ⦃jwt : Jwt⦄ where
    conclude-eq-ok :
        (code : Bytes) (s : IdpServer) (r : Result (AakeTokenResponse × AuthorizedUserData))
        (resp : AakeTokenResponse)
        → (conclude code s r).1 ≡ ok resp
        → (d : AuthorizedUserData) × ((r ≡ ok (resp, d))
            × ((conclude code s r).0 ≡ recorded code d s))
    conclude-eq-ok code s (ok (resp', d)) resp e = (d, (cc, refl))
    conclude-eq-ok code s (err _) resp e = cc
    conclude-eq-ok code s panic resp e = cc

    issue-eq-ok :
        (s : IdpServer) (w : Surroundings) (ac : AuthorizationCode) (proof : ProofPok) (ks : Bytes)
        (resp : AakeTokenResponse) (d : AuthorizedUserData)
        → issue s w ac proof ks ≡ ok (resp, d)
        → (d.uid ≡ ac.uid) × ((d.acid ≡ ac.acid) × (d.auid ≡ resp.auid))
    unfolding issue
    issue-eq-ok s w ac proof ks resp d e =
        let (p, e1, k1) = >>=-eq-ok (deref proof.sign1.sigma1) _ e in
        let (t, e2, k2) =
          >>=-eq-ok (rename_err "failed to generate tokens" (generate_tokens s.issuer w ac ks)) _
            k1 in
        (cc k2, (cc k2, cc k2))

    -- What `handle_token-Issued` says of a state, the state behind the request and the response.
    abbrev pub Issued :
        IdpServer → Surroundings → AakeTokenRequest → IdpServer → AakeTokenResponse → Type 0
    Issued s w req after resp =
        (ac : AuthorizationCode) × ((proof : ProofPok) × ((ks : Bytes) × ((d : AuthorizedUserData)
              × ((lookup req.code s.codes ≡ some ac)
                  × ((w.now ≤ ac.expires_at)
                      × ((ac.used ≡ false)
                          × (Admitted s ac req proof ks
                              × ((lookup req.code after.codes ≡ none)
                                  × ((after.session_ks ≡ (if w.writable then ks else s.session_ks))
                                      × ((get_all after.authorized (some ac.uid)
                                            ≡ get_all s.authorized (some ac.uid) ++ (d ∷ []))
                                          × ((d.acid ≡ ac.acid) × (d.auid ≡ resp.auid))))))))))))

    get_all-add :
        (m : Dict (List AuthorizedUserData)) (d : AuthorizedUserData)
        → get_all (add m (some d)) (some d.uid) ≡ get_all m (some d.uid) ++ (d ∷ [])
    unfolding get_all add
    get_all-add m d = rw (lookup-insert_self d.uid (records (lookup d.uid m) ++ (d ∷ [])) m) refl

    proceed-eq-ok :
        (s : IdpServer) (w : Surroundings) (code : Bytes) (ac : AuthorizationCode)
        (r : Result (ProofPok × Bytes)) (resp : AakeTokenResponse)
        → (proceed s w code ac r).1 ≡ ok resp
        → (proof : ProofPok) × ((ks : Bytes) × ((d : AuthorizedUserData) × ((r ≡ ok (proof, ks))
                × ((issue (save_session_ks w.writable ks s) w ac proof ks ≡ ok (resp, d))
                    × ((proceed s w code ac r).0
                        ≡ recorded code d (save_session_ks w.writable ks s))))))
    proceed-eq-ok s w code ac (ok (proof, ks)) resp e =
        let s' = save_session_ks w.writable ks s in
        let (d, (i, a)) = conclude-eq-ok code s' (issue s' w ac proof ks) resp e in
        (proof, (ks, (d, (refl, (i, a)))))
    proceed-eq-ok s w code ac (err _) resp e = cc
    proceed-eq-ok s w code ac panic resp e = cc

    issued :
        (s : IdpServer) (w : Surroundings) (req : AakeTokenRequest) (ac : AuthorizationCode)
        (resp : AakeTokenResponse)
        → lookup req.code s.codes ≡ some ac
        → w.now ≤ ac.expires_at
        → ac.used ≡ false
        → (proceed s w req.code ac (admit s ac req)).1 ≡ ok resp
        → Issued s w req (proceed s w req.code ac (admit s ac req)).0 resp
    issued s w req ac resp found early fresh e =
        let (proof, (ks, (d, (adm, (iss, after))))) =
          proceed-eq-ok s w req.code ac (admit s ac req) resp e in
        let (same_uid, (same_acid, same_auid)) =
          issue-eq-ok (save_session_ks w.writable ks s) w ac proof ks resp d iss in
        (
          ac,
          (
            proof,
            (
              ks,
              (
                d,
                (
                  found,
                  (
                    early,
                    (
                      fresh,
                      (
                        admit-Admitted s ac req proof ks adm,
                        (
                          ap (λ a. lookup req.code a.codes) after
                              ∙ lookup-delete_code s.codes req.code,
                          (
                            ap (λ a. a.session_ks) after,
                            (
                              ap (λ a. get_all a.authorized (some ac.uid)) after
                                  ∙ subst
                                      (λ u.
                                        get_all (add s.authorized (some d)) (some u)
                                        ≡ get_all s.authorized (some u) ++ (d ∷ []))
                                      same_uid (get_all-add s.authorized d),
                              (same_acid, same_auid),
                            ),
                          ),
                        ),
                      ),
                    ),
                  ),
                ),
              ),
            ),
          ),
        )

    start-Issued :
        (s : IdpServer) (w : Surroundings) (req : AakeTokenRequest) (resp : AakeTokenResponse)
        (o : Option AuthorizationCode)
        → lookup req.code s.codes ≡ o
        → (start s w req (checked s.codes w.now req.code o)).1 ≡ ok resp
        → Issued s w req (start s w req (checked s.codes w.now req.code o)).0 resp
    start-Issued s w req resp none found e = cc
    start-Issued s w req resp (some ac) found e = go (ltb ac.expires_at w.now) refl ac.used refl e
      where
        branch : Bool → Bool → Dict AuthorizationCode × Result AuthorizationCode
        branch expired used =
            if expired
            then (erase req.code s.codes, err "code expired")
            else if used
            then (s.codes, err "code already used")
            else (s.codes, ok ac)

        go :
            (expired : Bool)
            → ltb ac.expires_at w.now ≡ expired
            → (used : Bool) → ac.used ≡ used
            → (start s w req (branch expired used)).1 ≡ ok resp
            → Issued s w req (start s w req (branch expired used)).0 resp
        go true x used u e = cc
        go false x true u e = cc
        go false x false u e = issued s w req ac resp found (ground arith) u e

    -- When `handleToken` answers with tokens, the code was stored, not expired and not used, and
    -- the request is admitted for it: the proof verifies, its credential is the one the user
    -- consented to, and the key exchange succeeds. In the state behind it the code is gone, K_S is
    -- the key of the exchange if its file can be written, and the records of the code's user are
    -- one more, which has the code's credential and the response's pseudonym.
    pub handle_token-Issued :
        (s : IdpServer) (w : Surroundings) (req : AakeTokenRequest) (resp : AakeTokenResponse)
        → (handle_token s w req).1 ≡ ok resp
        → Issued s w req (handle_token s w req).0 resp
    unfolding handle_token get_code
    handle_token-Issued s w req resp e = start-Issued s w req resp (lookup req.code s.codes) refl e

    -- In the state that a request leaves which has brought tokens, a request with the same code is
    -- refused, whatever else it holds.
    pub handle_token-once :
        (s : IdpServer) (w w' : Surroundings) (req req' : AakeTokenRequest)
        (resp : AakeTokenResponse)
        → (handle_token s w req).1 ≡ ok resp
        → req'.code ≡ req.code
        → (handle_token (handle_token s w req).0 w' req').1 ≡ err "invalid code"
    handle_token-once s w w' req req' resp e same =
        let (_, (_, (_, (_, (_, (_, (_, (_, (gone, _))))))))) =
          handle_token-Issued s w req resp e in
        unknown (handle_token s w req).0 w' req'
          (ap (λ c. lookup c (handle_token s w req).0.codes) same ∙ gone)
      where
        unknown :
            (s : IdpServer) (w : Surroundings) (req : AakeTokenRequest)
            → lookup req.code s.codes ≡ none
            → (handle_token s w req).1 ≡ err "invalid code"
        unknown s w req h = unfold handle_token get_code in rw h refl
