-- ===== src/Login.antt =====
-- A whole login: the Broker's session, the RP's answer and the IdP's token endpoint together.
use orionlink.Prelude.{
  ℕ, ◌≡◌, refl, sym, ap, ◌∙◌, Bool, false, some, [], ◌∷◌, ◌++◌, Bytes, content, is_empty, length,
  ok, ◌>>=◌, lookup, bytes_eq_refl, >>=-eq-ok, rename_err-eq-ok, ok_injective, rename_err,
}
use orionlink.Ecc.{Bls, Scalar, G1}
use orionlink.Crypto.{Crypto}
use orionlink.Wire.{Codec, point_to_string, bytes_to_string, scalar_to_bytes}
use orionlink.Cred.{supply}
use orionlink.Cred.PsSig.{key_of, to_json, from_json}
use orionlink.Cred.PsSig.Correct.{exponent}
use orionlink.Cred.PsSig.Wire.{from_json-pair}
use orionlink.Session.{get_session_key}
use orionlink.Session.Agreement.{public_key}
use orionlink.Protocol.{AakeGenPokResponse}
use orionlink.Pok.{ProofPok, Prover, geneate_pok, to_proof, verify_pok}
use orionlink.Pok.Complete.{verify_pok-geneate_pok}
use orionlink.Pok.KeyPair.{geneate_pok-Answers}
use orionlink.Idp.Store.{AuthorizationCode}
use orionlink.Idp.{IdpServer, to_e2ee_data, admit}
use orionlink.Broker.{BrokerSessionData}
use orionlink.Broker.Login.{acid_string, pok_request}
use orionlink.Rp.Store.{get_aake_state}
use orionlink.Rp.{RpServer, prover, handle_aake_gen_pok}
use orionlink.Rp.Agreement.{handle_aake_gen_pok-get_session_key}

module _ ⦃b : Bls⦄ ⦃h : Crypto⦄ where
  open b use {field, g1}

  to_proof-sign1 :
      (req : AakeGenPokResponse) (p : ProofPok)
      → to_proof req ≡ ok p
      → from_json (content req.sign1) ≡ ok p.sign1
  unfolding to_proof
  to_proof-sign1 req p e =
      let (sign1, e1, k1) =
        >>=-eq-ok (rename_err "invalid sign1" (from_json (content req.sign1))) _ e in
      let (sign2, e2, k2) =
        >>=-eq-ok (rename_err "invalid sign2" (from_json (content req.sign2))) _ k1 in
      rename_err-eq-ok _ _ e1 ∙ ap (λ q. ok q.sign1) (ok_injective k2)

  -- A session with the randomized credential `(s1, s2)` and its factors.
  abbrev pub session_of : G1 → G1 → (t k : Scalar) → (tid state : Bytes) → BrokerSessionData
  session_of s1 s2 t k tid state = record {
    t = t;
    k = k;
    rand_sig = record { sigma1 = some s1; sigma2 = some s2 };
    tid = tid;
    state = state;
  }

  -- The signature that the proof carries is the session's.
  carried :
      (p : Prover) (s1 s2 : G1) (t k : Scalar) (tid state : Bytes) (f : ℕ → Scalar)
      (made : AakeGenPokResponse × Scalar × G1) (proof : ProofPok)
      → geneate_pok p (pok_request (session_of s1 s2 t k tid state)) (supply f) ≡ ok made
      → to_proof made.0 ≡ ok proof
      → proof.sign1 ≡ record { sigma1 = some s1; sigma2 = some s2 }
  unfolding pok_request to_json
  carried p s1 s2 t k tid state f made proof e e' =
      let (sig, rsigma1, r, j, (_, first)) =
        geneate_pok-Answers p (pok_request (session_of s1 s2 t k tid state)) (supply f) made e in
      let given : g1.compress s1 ++ g1.compress s2 ≡ sig = cc r in
      let same : rsigma1 ≡ record { sigma1 = some s1; sigma2 = some s2 } =
        ok_injective (sym j ∙ ap from_json (sym given) ∙ from_json-pair s1 s2) in
      let sent : content made.0.sign1 ≡ g1.compress s1 ++ g1.compress s2 =
        ap content first ∙ ap (λ m. to_json (some m)) same in
      ok_injective (sym (to_proof-sign1 made.0 proof e') ∙ ap from_json sent ∙ from_json-pair s1 s2)

  module _ ⦃codec : Codec⦄ where
    acid-parses :
        (s1 s2 : G1) (t k : Scalar) (tid state : Bytes)
        → codec.parse_acid (acid_string (session_of s1 s2 t k tid state))
          ≡ some (point_to_string g1 (some s1), point_to_string g1 (some s2))
    unfolding point_to_string bytes_to_string
    acid-parses s1 s2 t k tid state = codec.parse_acid-acid_text (g1.compress s1) (g1.compress s2)

    admitted :
        (s : IdpServer) (ac : AuthorizationCode) (resp : AakeGenPokResponse) (code : Bytes)
        (proof : ProofPok) (ks : Bytes) (s1 s2 : G1)
        → to_proof resp ≡ ok proof
        → verify_pok s.vk1 s.vk2 proof ≡ ok tt
        → codec.parse_acid ac.acid
          ≡ some (point_to_string g1 (some s1), point_to_string g1 (some s2))
        → proof.sign1 ≡ record { sigma1 = some s1; sigma2 = some s2 }
        → (to_e2ee_data resp.e2ee >>= get_session_key s.emp_keys s.identity) ≡ ok ks
        → admit s ac (record { pok = resp; code = code }) ≡ ok (proof, ks)
    unfolding admit
    admitted s ac resp code proof ks s1 s2 read verified parsed signed derived =
        let (edata, e1, e2) = >>=-eq-ok (to_e2ee_data resp.e2ee) _ derived in
        rw
          (
            read,
            verified,
            parsed,
            signed,
            bytes_eq_refl (point_to_string g1 (some s1)),
            bytes_eq_refl (point_to_string g1 (some s2)),
            e1,
            e2,
          )
          refl

    -- Let an IdP have credential keys that were made from secrets, an identity key, and a pool with
    -- an ephemeral key; let an RP have the IdP's public keys, a secret and a secret credential on
    -- its domain and its secret; and let a Broker's session with a state that is not empty hold a
    -- randomized signature on the domain, with its factor. Then the RP answers the session's
    -- request with the ephemeral key, keeps a K_S under the session's state, and the IdP admits the
    -- answer for a code whose consent was to the session's credential, with that K_S and that
    -- credential.
    pub admit-handle_aake_gen_pok :
        (s : IdpServer) (r : RpServer) (writable : Bool) (ac : AuthorizationCode) (code : Bytes)
        (x1 y1 x2 y2 y3 sk t k isk esk emp : Scalar) (s1 s2 b1 b2 : G1) (f : ℕ → Scalar)
        (tid state kid nonce : Bytes)
        → let d = field.set_bytes r.domain in
          let vk1 = (key_of x1 (y1 ∷ [])).public_key in
          let vk2 = (key_of x2 (y2 ∷ y3 ∷ [])).public_key in
          let session = session_of s1 s2 t k tid state in
          s2 ≡ g1.smul (field.add (exponent x1 (y1 ∷ []) (d ∷ [])) t) s1
          → b2 ≡ g1.smul (exponent x2 (y2 ∷ y3 ∷ []) (d ∷ sk ∷ [])) b1
          → prover r ≡ record {
            domain = r.domain;
            identity_sk = some sk;
            vk1 = some vk1;
            vk2 = some vk2;
            sigma_bar = some (record { sigma1 = some b1; sigma2 = some b2 });
          }
          → r.idp_aake_pk ≡ some (public_key isk)
          → s.vk1 ≡ vk1
          → s.vk2 ≡ vk2
          → s.identity ≡ record { sk = some isk; pk = some (public_key isk) }
          → lookup kid s.emp_keys
            ≡ some (record { id = kid; sk = some esk; pk = some (public_key esk) })
          → length nonce ≡ h.nonce_size
          → is_empty state ≡ false
          → ac.acid ≡ acid_string session
          → let after =
              handle_aake_gen_pok r
                (ok (record { kid = kid; pk = some (g1.compress (public_key esk)) }))
                writable
                (pok_request session)
                (supply f)
                (some emp)
                (some nonce) in
            (resp : AakeGenPokResponse) × (proof : ProofPok) × (ks : Bytes) × (after.1 ≡ ok resp)
            × (get_aake_state after.0.store state ≡ some (record { ks = ks }))
            × (admit s ac (record { pok = resp; code = code }) ≡ ok (proof, ks))
            × (proof.sign1 ≡ record { sigma1 = some s1; sigma2 = some s2 })
    unfolding pok_request scalar_to_bytes
    admit-handle_aake_gen_pok s r writable ac code x1 y1 x2 y2 y3 sk t k isk esk emp s1 s2 b1 b2 f
          tid state kid nonce hs hb knows idp_pk v1 v2 identity pool n named consent =
        let session = session_of s1 s2 t k tid state in
        let accepted =
          verify_pok-geneate_pok x1 y1 x2 y2 y3 sk t r.domain state s1 s2 b1 b2 f hs hb in
        let (made, g, k1) =
          >>=-eq-ok
            (geneate_pok
              (record {
                domain = r.domain;
                identity_sk = some sk;
                vk1 = some (key_of x1 (y1 ∷ [])).public_key;
                vk2 = some (key_of x2 (y2 ∷ y3 ∷ [])).public_key;
                sigma_bar = some (record { sigma1 = some b1; sigma2 = some b2 });
              })
              (pok_request session) (supply f))
            _ accepted in
        let (proof, read, verified) = >>=-eq-ok (to_proof made.0) _ k1 in
        let generated = ap (λ p. geneate_pok p (pok_request session) (supply f)) knows ∙ g in
        let (resp, ks, answered, kept, derived, same) =
          handle_aake_gen_pok-get_session_key r writable (pok_request session) (supply f) made isk
            esk emp kid nonce s.emp_keys generated named idp_pk n pool in
        let signed = carried (prover r) s1 s2 t k tid state f made proof generated read in
        (
          resp,
          proof,
          ks,
          answered,
          kept,
          admitted s ac resp code proof ks s1 s2 (same ∙ read) (rw (v1, v2) verified)
              (ap codec.parse_acid consent ∙ acid-parses s1 s2 t k tid state) signed
              (rw identity derived),
          signed,
        )
