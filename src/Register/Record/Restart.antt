-- ===== src/Register/Record/Restart.antt =====
-- What an RP that is registered finds at its next start.
use mathlib.Core.Path.{subst}
use orionlink.Prelude.{
  ℕ, ◌<◌, ◌≡◌, refl, sym, ap, ◌∙◌, true, false, some, [], ◌∷◌, ◌++◌, length, length-append, Bytes,
  is_empty, ok, arith,
}
use orionlink.Ecc.{Bls, Scalar, G1}
use orionlink.Crypto.{Crypto}
use orionlink.Wire.{scalar_to_bytes, bytes_to_scalar}
use orionlink.Cred.PsSig.{to_json}
use orionlink.Cred.PsSig.Wire.{from_json-pair}
use orionlink.Files.{File, Json, read_record-marshal}
use orionlink.Rp.{RpServer}
use orionlink.Register.Record.{
  RegistrationData, no_registration, restore_record, restore_rest, restore_tid, restore_domain_cred,
  restore_secret_cred, data_of, load_record, save_record,
}
use orionlink.Register.Record.Auto.{Attempt, auto_register}

module _ ⦃b : Bls⦄ ⦃h : Crypto⦄ ⦃json : Json RegistrationData⦄ where
  open b use {field, g1}

  full : (xs : Bytes) → 0 < length xs → is_empty xs ≡ false
  full [] long = ground (arith, long)
  full (x ∷ xs) long = refl

  pair-full : (s1 s2 : G1) → is_empty (g1.compress s1 ++ g1.compress s2) ≡ false
  pair-full s1 s2 = full (g1.compress s1 ++ g1.compress s2) (
      omega (
        arith,
        length-append (g1.compress s1) (g1.compress s2),
        g1.length-compress s1,
        g1.size-long,
      ))

  -- A server with both credentials, their points and its secret.
  abbrev signed : RpServer → (s1 s2 b1 b2 : G1) → Scalar → RpServer
  signed s s1 s2 b1 b2 sk = record s {
    domain_cred = record s.domain_cred {
      sigma = some (record { sigma1 = some s1; sigma2 = some s2 });
    };
    secret_cred = record s.secret_cred {
      identity_sk = some sk;
      sigma_bar = some (record { sigma1 = some b1; sigma2 = some b2 });
    };
  }

  domain_part :
      (r : RpServer) (domain : Bytes) (s1 s2 : G1)
      → restore_domain_cred r
          (some (record { domain = domain; sigma = g1.compress s1 ++ g1.compress s2 }))
        ≡ (
          record r {
            domain_cred = record {
              domain = domain;
              sigma = some (record { sigma1 = some s1; sigma2 = some s2 });
            };
          },
          ok tt,
        )
  domain_part r domain s1 s2 = rw (pair-full s1 s2, from_json-pair s1 s2) refl

  secret_part :
      (r : RpServer) (domain : Bytes) (b1 b2 : G1) (sk : Scalar)
      → is_empty (field.marshal sk) ≡ false
      → restore_secret_cred r (
          some (record {
            domain = domain;
            identity_sk = field.marshal sk;
            sigma_bar = g1.compress b1 ++ g1.compress b2;
          }))
        ≡ (
          record r {
            secret_cred = record {
              domain = domain;
              identity_sk = some sk;
              sigma_bar = some (record { sigma1 = some b1; sigma2 = some b2 });
            };
          },
          ok tt,
        )
  unfolding bytes_to_scalar
  secret_part r domain b1 b2 sk long =
      rw (long, field.unmarshal-marshal sk, pair-full b1 b2, from_json-pair b1 b2) refl

  restored_signed :
      (s r : RpServer) (file : File) (s1 s2 b1 b2 : G1) (sk : Scalar)
      → ((a : Scalar) → is_empty (field.marshal a) ≡ false)
      → is_empty s.tid ≡ false
      → let q = signed s s1 s2 b1 b2 sk in
        load_record (save_record true q file).0 r ≡ (
          record r { tid = q.tid; domain_cred = q.domain_cred; secret_cred = q.secret_cred },
          ok (data_of q),
        )
  unfolding load_record save_record to_json scalar_to_bytes
  restored_signed s r file s1 s2 b1 b2 sk scalars named =
      let q = signed s s1 s2 b1 b2 sk in
      ap (restore_record r) (read_record-marshal json no_registration (data_of q))
      ∙ ap (restore_rest (data_of q)) (domain_part r s.domain_cred.domain s1 s2)
      ∙ ap (restore_tid (data_of q)) (
          secret_part (record r { domain_cred = q.domain_cred }) s.secret_cred.domain b1 b2 sk
            (scalars sk))
      ∙ rw named refl

  -- Let no encoding of a scalar be empty. What a server with both credentials, their points and its secret saves
  -- gives a server that is started again both credentials and the ticket.
  pub load_record-save_record :
      (s r : RpServer) (file : File) (s1 s2 b1 b2 : G1) (sk : Scalar)
      → ((a : Scalar) → is_empty (field.marshal a) ≡ false)
      → s.domain_cred.sigma ≡ some (record { sigma1 = some s1; sigma2 = some s2 })
      → s.secret_cred.sigma_bar ≡ some (record { sigma1 = some b1; sigma2 = some b2 })
      → s.secret_cred.identity_sk ≡ some sk
      → is_empty s.tid ≡ false
      → load_record (save_record true s file).0 r ≡ (
        record r { tid = s.tid; domain_cred = s.domain_cred; secret_cred = s.secret_cred },
        ok (data_of s),
      )
  load_record-save_record s r file s1 s2 b1 b2 sk scalars e1 e2 e3 named =
      subst
        (λ q. load_record (save_record true q file).0 r ≡ (
          record r { tid = q.tid; domain_cred = q.domain_cred; secret_cred = q.secret_cred },
          ok (data_of q),
        ))
        same (restored_signed s r file s1 s2 b1 b2 sk scalars named)
    where
      same : signed s s1 s2 b1 b2 sk ≡ s
      same = rw (sym e1, sym e2, sym e3) refl

  -- Let no encoding of a scalar be empty, and let an RP with both credentials, their points, its
  -- secret and a ticket have saved its record. At its next start the credentials and the ticket are
  -- restored and the registration is found complete, so that nothing is sent, whatever the others
  -- would answer.
  pub auto_register-save_record :
      (s r : RpServer) (file : File) (s1 s2 b1 b2 : G1) (sk : Scalar) (redirect_uri : Bytes)
      (ws : ℕ → Attempt)
      → ((a : Scalar) → is_empty (field.marshal a) ≡ false)
      → s.domain_cred.sigma ≡ some (record { sigma1 = some s1; sigma2 = some s2 })
      → s.secret_cred.sigma_bar ≡ some (record { sigma1 = some b1; sigma2 = some b2 })
      → s.secret_cred.identity_sk ≡ some sk
      → is_empty s.tid ≡ false
      → let kept = (save_record true s file).0 in
        auto_register redirect_uri ws (r, kept) ≡ (
          (
            record r { tid = s.tid; domain_cred = s.domain_cred; secret_cred = s.secret_cred },
            kept,
          ),
          ok tt,
        )
  unfolding auto_register
  auto_register-save_record s r file s1 s2 b1 b2 sk redirect_uri ws scalars e1 e2 e3 named =
      rw (load_record-save_record s r file s1 s2 b1 b2 sk scalars e1 e2 e3 named, e1, named) refl
