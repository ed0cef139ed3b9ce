-- ===== src/Broker/Store.antt =====
-- Broker/storage.go: the codes that the Broker has issued, and the users of an RP.
use orionlink.Prelude.{
  ℕ, ◌+◌, Bool, true, false, Option, none, some, Bytes, is_empty, ltb, Result, ok, err,
  if◌then◌else◌, Dict, lookup, insert, erase,
}

pub record Tokens : Type 0 where
  pub access_token : Bytes
  pub id_token : Bytes
  pub token_type : Bytes
  pub refresh_token : Bytes

pub record User : Type 0 where
  pub uid : Bytes
  pub token : Option Tokens

pub record AuthorizationCode : Type 0 where
  pub code : Bytes
  pub user_id : Bytes
  pub rpid : Bytes
  pub tokens : Tokens
  pub created_at : ℕ
  pub expires_at : ℕ
  pub used : Bool

unfoldable pub get_user : Dict User → Bytes → Option User
get_user users uid = lookup uid users

unfoldable pub save_user : Dict User → Option User → Dict User
save_user users none = users
save_user users (some user) = if is_empty user.uid then users else insert user.uid user users

-- `IssueCode`, with what `GenerateCode` gives and the time in seconds: a code lives 500 minutes.
unfoldable pub issue_code :
    Dict AuthorizationCode
    → Option Bytes
    → Bytes
    → Bytes
    → Tokens
    → ℕ
    → Dict AuthorizationCode × Result Bytes
issue_code codes none user_id rpid tokens now = (codes, err "random source failed")
issue_code codes (some code) user_id rpid tokens now = (
  insert code
      (record {
        code = code;
        user_id = user_id;
        rpid = rpid;
        tokens = tokens;
        created_at = now;
        expires_at = now + 30000;
        used = false;
      })
      codes,
  ok code,
)

-- `ac.Used = true`.
abbrev pub taken : AuthorizationCode → AuthorizationCode
taken ac = record {
  code = ac.code;
  user_id = ac.user_id;
  rpid = ac.rpid;
  tokens = ac.tokens;
  created_at = ac.created_at;
  expires_at = ac.expires_at;
  used = true;
}

-- The rest of `GetCode`, behind the lookup: the code's data are marked as used and taken out.
abbrev pub checked :
    Dict AuthorizationCode
    → ℕ
    → Bytes
    → Option AuthorizationCode
    → Dict AuthorizationCode × Result AuthorizationCode
checked codes now code none = (codes, err "authorization code not found")
checked codes now code (some ac) =
    if ltb ac.expires_at now
    then (erase code codes, err "authorization code expired")
    else if ac.used
    then (codes, err "authorization code already used")
    else (erase code codes, ok (taken ac))

-- `GetCode` at a time.
unfoldable pub get_code :
    Dict AuthorizationCode → ℕ → Bytes → Dict AuthorizationCode × Result AuthorizationCode
get_code codes now code = checked codes now code (lookup code codes)

unfoldable pub delete_code : Dict AuthorizationCode → Bytes → Dict AuthorizationCode
delete_code codes code = erase code codes
