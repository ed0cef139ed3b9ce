-- ===== src/Idp/Short.antt =====
-- A token request whose first signature is too short.
use orionlink.Prelude.{
  ◌≡◌, ◌<◌, refl, ap, ◌∙◌, true, false, ◌++◌, content, Bytes, text, bytes_eq, length, length-append,
  ltb, ok, panic, arith,
}
use orionlink.Ecc.{Bls}
use orionlink.Crypto.{Crypto}
use orionlink.Wire.{Codec}
use orionlink.Token.{Jwt}
use orionlink.Cred.PsSig.{from_json}
use orionlink.Protocol.{AakeTokenRequest}
use orionlink.Pok.{to_proof}
use orionlink.Idp.Store.{AuthorizationCode, get_code}
use orionlink.Idp.{IdpServer, Surroundings, with_codes, admit, start, handle_token}

module _ ⦃b : Bls⦄ ⦃h : Crypto⦄ ⦃codec : Codec⦄ ⦃jwt : Jwt⦄ where
  from_json-short :
      (bytes : Bytes)
      → bytes_eq bytes (text "null") ≡ false
      → length (bytes ++ b.behind bytes) < b.g1.size
      → from_json bytes ≡ panic
  unfolding from_json
  from_json-short bytes other short =
      let room : ltb (length (bytes ++ b.behind bytes)) b.g1.size ≡ true = ground (arith, short) in
      let below : ltb (length bytes) b.g1.size ≡ true =
        ground (arith, short, length-append bytes (b.behind bytes)) in
      rw (other, below, room) refl

  -- A request with a live code ends in a panic if its first signature is not `null` and is, with
  -- the rest of its slice's capacity, shorter than a point. Only the code is looked up before.
  pub handle_token-short :
      (s : IdpServer) (w : Surroundings) (req : AakeTokenRequest) (ac : AuthorizationCode)
      → (get_code s.codes w.now req.code).1 ≡ ok ac
      → bytes_eq (content req.pok.sign1) (text "null") ≡ false
      → length (content req.pok.sign1 ++ b.behind (content req.pok.sign1)) < b.g1.size
      → handle_token s w req ≡ (with_codes s (get_code s.codes w.now req.code).0, panic)
  unfolding handle_token admit to_proof
  handle_token-short s w req ac live other short =
      ap (λ r. start s w req ((get_code s.codes w.now req.code).0, r)) live
      ∙ rw (from_json-short (content req.pok.sign1) other short) refl
