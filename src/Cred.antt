-- ===== src/Cred.antt =====
-- The credential schemes of lib/: Pointcheval-Sanders signatures (PSSig.go), Schnorr proofs
-- (NIZK.go) and blind issuance (anonyCred.go). A Go pointer that may be nil is an `Option`; the
-- scalars that one call draws from `rand.Reader` are numbered from 0, and `none` is a failed read.
pub mod Sums
pub mod PsSig
pub mod Nizk
pub mod Blind
pub mod Present
use orionlink.Prelude.{Bytes, ℕ, Option, none, some, List, Result, ok, err, panic, rename_err}
use orionlink.Ecc.{Bls, Scalar, G1, G2}

module _ ⦃b : Bls⦄ where
  abbrev pub Rng : Type 0
  Rng = ℕ → Option Scalar

  -- A source that never fails.
  abbrev pub supply : (ℕ → Scalar) → Rng
  supply f i = some (f i)

  -- `if err := s.Random(rand.Reader); err != nil { return err }`
  abbrev pub draw : Option Scalar → Result Scalar
  draw none = err "random source failed"
  draw (some r) = ok r

  -- `if err := s.Random(rand.Reader); err != nil { panic(err) }`
  abbrev pub must_draw : Option Scalar → Result Scalar
  must_draw none = panic
  must_draw (some r) = ok r

  pub record PsSignMsg : Type 0 where
    pub sigma1 : Option G1
    pub sigma2 : Option G1

  pub record PsSecretKey : Type 0 where
    pub x : Option Scalar
    pub yn : List (Option Scalar)
    pub big_x : Option G1

  pub record PsPublicKey : Type 0 where
    pub yn : List (Option G1)
    pub xhat : Option G2
    pub yhatn : List (Option G2)

  pub record PsKey : Type 0 where
    pub secret_key : PsSecretKey
    pub public_key : PsPublicKey

  -- `comm.DomainCredential` and `comm.SecretCredential`, the two credentials of an RP.
  pub record DomainCredential : Type 0 where
    pub domain : Bytes
    pub sigma : Option PsSignMsg

  pub record SecretCredential : Type 0 where
    pub domain : Bytes
    pub identity_sk : Option Scalar
    pub sigma_bar : Option PsSignMsg
