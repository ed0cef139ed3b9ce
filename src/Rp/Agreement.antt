-- ===== src/Rp/Agreement.antt =====
-- The key K_S that the RP keeps for a login is the one that the IdP derives from the RP's answer.
use orionlink.Prelude.{
  ◌≡◌, Bool, refl, false, some, Bytes, is_empty, length, ok, ◌>>=◌, Dict, lookup,
  lookup-insert_self,
}
use orionlink.Ecc.{Bls, Scalar, G1}
use orionlink.Crypto.{Crypto}
use orionlink.Wire.{point_to_bytes, bytes_to_point}
use orionlink.Cred.{Rng}
use orionlink.Session.{EphemeralKey, get_session_key}
use orionlink.Session.Agreement.{public_key, session_key, session_agreement}
use orionlink.Protocol.{AakeGenPokRequest, AakeGenPokResponse}
use orionlink.Pok.{geneate_pok, to_proof}
use orionlink.Pok.KeyPair.{geneate_pok-Answers}
use orionlink.Idp.{to_e2ee_data}
use orionlink.Rp.Store.{save_aake_state, get_aake_state}
use orionlink.Rp.{RpServer, prover, attach_e2ee, aake_gen_pok, handle_aake_gen_pok}

module _ ⦃b : Bls⦄ ⦃h : Crypto⦄ where
  open b use {g1}

  -- The IdP derives `ks` from the response.
  abbrev pub Derives : Dict EphemeralKey → Scalar → AakeGenPokResponse → Bytes → Type 0
  Derives pool isk resp ks =
      (to_e2ee_data resp.e2ee
        >>= get_session_key pool (record { sk = some isk; pk = some (public_key isk) }))
      ≡ ok ks

  attached :
      (s : RpServer) (resp : AakeGenPokResponse) (sk isk esk emp : Scalar) (kid nonce : Bytes)
      (pool : Dict EphemeralKey)
      → s.idp_aake_pk ≡ some (public_key isk)
      → length nonce ≡ h.nonce_size
      → lookup kid pool ≡ some (record { id = kid; sk = some esk; pk = some (public_key esk) })
      → (resp' : AakeGenPokResponse) × (attach_e2ee s
            (ok (record { kid = kid; pk = some (g1.compress (public_key esk)) }))
            resp
            sk
            (public_key sk)
            (some emp)
            (some nonce)
          ≡ ok (session_key sk emp isk esk, resp'))
        × Derives pool isk resp' (session_key sk emp isk esk)
        × (to_proof resp' ≡ to_proof resp)
  unfolding to_proof attach_e2ee bytes_to_point point_to_bytes to_e2ee_data
  attached s resp sk isk esk emp kid nonce pool known n found =
      let (msg, made, derived) = session_agreement sk emp isk esk nonce kid pool n found in
      (
        record resp {
          e2ee = record {
            client_pk = some (g1.compress (public_key sk));
            client_emp_pk = some (g1.compress (public_key emp));
            idp_emp_key_id = kid;
            msg = some msg;
          };
        },
        rw (g1.set_bytes-compress (public_key esk), known, made) refl,
        rw (g1.set_bytes-compress (public_key sk), g1.set_bytes-compress (public_key emp)) derived,
        refl,
      )

  -- For an RP that knows the IdP's public key, and an ephemeral key from the IdP's pool: when the
  -- RP can make its proof, it answers the Broker's request, it keeps a K_S under the request's
  -- state, which is not empty, the IdP derives that K_S from the answer, and the answer carries the
  -- proof that was made.
  pub handle_aake_gen_pok-get_session_key :
      (s : RpServer) (writable : Bool) (req : AakeGenPokRequest) (rng : Rng)
      (made : AakeGenPokResponse × Scalar × G1) (isk esk emp : Scalar) (kid nonce : Bytes)
      (pool : Dict EphemeralKey)
      → geneate_pok (prover s) req rng ≡ ok made
      → is_empty req.state ≡ false
      → s.idp_aake_pk ≡ some (public_key isk)
      → length nonce ≡ h.nonce_size
      → lookup kid pool ≡ some (record { id = kid; sk = some esk; pk = some (public_key esk) })
      → let after =
          handle_aake_gen_pok s
            (ok (record { kid = kid; pk = some (g1.compress (public_key esk)) }))
            writable
            req
            rng
            (some emp)
            (some nonce) in
        (resp : AakeGenPokResponse) × (ks : Bytes) × (after.1 ≡ ok resp)
        × (get_aake_state after.0.store req.state ≡ some (record { ks = ks }))
        × Derives pool isk resp ks
        × (to_proof resp ≡ to_proof made.0)
  unfolding handle_aake_gen_pok aake_gen_pok save_aake_state get_aake_state
  handle_aake_gen_pok-get_session_key s writable req rng made isk esk emp kid nonce pool proved
        named known n found =
      let (resp, e, derived, proof) =
        attached s made.0 made.1 isk esk emp kid nonce pool known n found in
      let paired : made.2 ≡ public_key made.1 =
        (geneate_pok-Answers (prover s) req rng made proved).4.0 in
      (
        resp,
        session_key made.1 emp isk esk,
        rw (proved, paired, e) refl,
        rw (proved, paired, e, named) (lookup-insert_self req.state _ s.store.aake_states),
        derived,
        proof,
      )
