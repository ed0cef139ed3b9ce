-- ===== src/Register/Record/Attempts.antt =====
-- How the attempts of `AutoRegister` end.
use Prim.Native.String.{String}
use orionlink.Prelude.{
  ℕ, zero, suc, ◌+◌, ◌<◌, ◌↔◌, ◌⊎◌, inl, inr, ◌≡◌, refl, ap, ◌∙◌, Bool, true, false, Bytes, Result,
  ok, err, panic, arith,
}
use orionlink.Ecc.{Bls}
use orionlink.Crypto.{Crypto}
use orionlink.Files.{File, Json}
use orionlink.Rp.{RpServer}
use orionlink.Register.Record.{RegistrationData, load_record}
use orionlink.Register.Record.Auto.{Attempt, follow, attempt, retry, is_complete, auto_register}

module _ ⦃b : Bls⦄ ⦃h : Crypto⦄ ⦃json : Json RegistrationData⦄ (redirect_uri : Bytes)
    (ws : ℕ → Attempt) where
  -- The attempt that is `j` behind the attempt `i`, after those between them.
  unfoldable pub nth : ℕ → ℕ → RpServer × File → (RpServer × File) × Result (Unit {0})
  nth i zero st = attempt redirect_uri (ws i) st
  nth i (suc j) st = nth (i + 1) j (attempt redirect_uri (ws i) st).0

  -- The `j` attempts from the attempt `i` on end with an error before the time is up.
  abbrev pub Fail : ℕ → ℕ → RpServer × File → Type 0
  Fail i zero st = Unit
  Fail i (suc j) st =
      ((ws i).expired ≡ false)
      × ((e : String) × ((attempt redirect_uri (ws i) st).1 ≡ err e))
      × Fail (i + 1) j (attempt redirect_uri (ws i) st).0

  follow-ok :
      (expired : Bool) (a rest : (RpServer × File) × Result (Unit {0}))
      → a.1 ≡ ok tt
      → follow expired a rest ≡ (a.0, ok tt)
  follow-ok expired (st, ok _) rest e = refl
  follow-ok expired (st, err m) rest e = cc e
  follow-ok expired (st, panic) rest e = cc e

  follow-err :
      (expired : Bool) (a rest : (RpServer × File) × Result (Unit {0})) (m : String)
      → expired ≡ false
      → a.1 ≡ err m
      → follow expired a rest ≡ rest
  follow-err true a rest m t e = cc t
  follow-err false (st, err m') rest m t e = refl
  follow-err false (st, ok _) rest m t e = cc e
  follow-err false (st, panic) rest m t e = cc e

  retry-nth :
      (n i j : ℕ) (st : RpServer × File)
      → j < n
      → Fail i j st
      → (nth i j st).1 ≡ ok tt
      → retry redirect_uri n i ws st ≡ ((nth i j st).0, ok tt)
  unfolding retry nth
  retry-nth zero i j st lt fs e = ground (arith, lt)
  retry-nth (suc n) i zero st lt fs e =
      follow-ok (ws i).expired (attempt redirect_uri (ws i) st) _ e
  retry-nth (suc n) i (suc j) st lt (t, (m, f), fs) e =
      follow-err (ws i).expired (attempt redirect_uri (ws i) st) _ m t f
      ∙ retry-nth n (i + 1) j (attempt redirect_uri (ws i) st).0 (omega (arith, lt)) fs e

  -- What has happened if the attempts, from one with the result `a` on, end with success.
  follow-inv :
      (expired : Bool) (a rest : (RpServer × File) × Result (Unit {0})) (after : RpServer × File)
      → follow expired a rest ≡ (after, ok tt)
      → (a ≡ (after, ok tt))
        ⊎ ((expired ≡ false) × ((m : String) × (a.1 ≡ err m)) × (rest ≡ (after, ok tt)))
  follow-inv expired (st, ok _) rest after e = inl e
  follow-inv true (st, err m) rest after e = cc e
  follow-inv false (st, err m) rest after e = inr (refl, (m, refl), e)
  follow-inv expired (st, panic) rest after e = cc e

  nth-retry :
      (n i : ℕ) (st after : RpServer × File)
      → retry redirect_uri n i ws st ≡ (after, ok tt)
      → (j : ℕ) × (j < n) × Fail i j st × (nth i j st ≡ (after, ok tt))
  unfolding retry nth
  nth-retry zero i st after e = cc e
  nth-retry (suc n) i st after e =
      let st' = (attempt redirect_uri (ws i) st).0 in
      elim (follow-inv (ws i).expired (attempt redirect_uri (ws i) st)
        (retry redirect_uri n (i + 1) ws st') after e) [
          | inl done ↦ (zero, omega arith, tt, done)
          | inr (t, f, e') ↦
              let (j, lt, fs, d) = nth-retry n (i + 1) st' after e' in
              (suc j, omega (arith, lt), (t, f, fs), d)
        ]

  -- Without a complete registration in the file, `AutoRegister` ends with success exactly if one of
  -- its ten attempts succeeds and each attempt before it ends with an error before the time is up;
  -- it ends with what that attempt leaves.
  pub auto_register-nth :
      (s : RpServer) (file : File) (after : RpServer × File)
      → is_complete (load_record file s).1 ≡ false
      → (auto_register redirect_uri ws (s, file) ≡ (after, ok tt)) ↔ (
          (j : ℕ) × (j < 10)
          × Fail 0 j ((load_record file s).0, file)
          × (nth 0 j ((load_record file s).0, file) ≡ (after, ok tt)))
  unfolding auto_register
  auto_register-nth s file after none_yet =
      let st : RpServer × File = ((load_record file s).0, file) in
      rw none_yet (
        nth-retry 10 0 st after,
        λ (j, lt, fs, d). retry-nth 10 0 j st lt fs (ap (λ r. r.1) d) ∙ ap (λ r. (r.0, ok tt)) d,
      )

  exhausted :
      (n i : ℕ) (st : RpServer × File)
      → Fail i n st
      → (retry redirect_uri n i ws st).1 ≡ err "auto-registration exhausted retries"
  unfolding retry
  exhausted zero i st fs = refl
  exhausted (suc n) i st (t, (m, f), fs) =
      ap (λ r. r.1) (follow-err (ws i).expired (attempt redirect_uri (ws i) st) _ m t f)
      ∙ exhausted n (i + 1) (attempt redirect_uri (ws i) st).0 fs

  -- After ten attempts that end with an error before the time is up, `AutoRegister` ends without
  -- success.
  pub auto_register-exhausted :
      (s : RpServer) (file : File)
      → is_complete (load_record file s).1 ≡ false
      → Fail 0 10 ((load_record file s).0, file)
      → (auto_register redirect_uri ws (s, file)).1 ≡ err "auto-registration exhausted retries"
  unfolding auto_register
  auto_register-exhausted s file none_yet fs =
      rw none_yet (exhausted 10 0 ((load_record file s).0, file) fs)
