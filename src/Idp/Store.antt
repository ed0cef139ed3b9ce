-- ===== src/Idp/Store.antt =====
-- IdP/storage.go: the authorization codes that are open, and the records of what users authorized.
use orionlink.Prelude.{
  ℕ, ◌+◌, Bool, false, Option, none, some, List, [], ◌∷◌, ◌++◌, Bytes, bytes_eq, ltb, Result, ok,
  err, is_some, if◌then◌else◌, Dict, lookup, insert, erase,
}

pub record AuthorizationCode : Type 0 where
  pub code : Bytes
  pub oprf_enc : Bytes
  pub acid : Bytes
  pub uid : Bytes
  pub username : Bytes
  pub email : Bytes
  pub scope : Bytes
  pub expires_at : ℕ
  pub used : Bool

-- The rest of `GetCode`, behind the lookup.
abbrev pub checked :
    Dict AuthorizationCode
    → ℕ
    → Bytes
    → Option AuthorizationCode
    → Dict AuthorizationCode × Result AuthorizationCode
checked codes now code none = (codes, err "code not found")
checked codes now code (some ac) =
    if ltb ac.expires_at now
    then (erase code codes, err "code expired")
    else if ac.used
    then (codes, err "code already used")
    else (codes, ok ac)

-- `GetCode` at a time: the store, and the code's data.
unfoldable pub get_code :
    Dict AuthorizationCode → ℕ → Bytes → Dict AuthorizationCode × Result AuthorizationCode
get_code codes now code = checked codes now code (lookup code codes)

-- `SaveCode`, with what `GenerateCode` gives, the code's data but for its expiry, the time and the
-- time to live.
unfoldable pub save_code :
    Dict AuthorizationCode
    → Option Bytes
    → (d_enc acid uid username email scope : Bytes) → ℕ
    → ℕ
    → Dict AuthorizationCode × Result AuthorizationCode
save_code codes none d_enc acid uid username email scope now ttl =
    (codes, err "random source failed")
save_code codes (some code) d_enc acid uid username email scope now ttl =
    let ac : AuthorizationCode = record {
      code = code;
      oprf_enc = d_enc;
      acid = acid;
      uid = uid;
      username = username;
      email = email;
      scope = scope;
      expires_at = now + ttl;
      used = false;
    } in
    (insert code ac codes, ok ac)

unfoldable pub delete_code : Dict AuthorizationCode → Bytes → Dict AuthorizationCode
delete_code codes code = if is_some (lookup code codes) then erase code codes else codes

pub record AuthorizedUserData : Type 0 where
  pub acid : Bytes
  pub uid : Bytes
  pub auid : Bytes
  pub oprf_enc : Bytes
  pub username : Bytes
  pub email : Bytes
  pub scope : Bytes
  pub id_token : Bytes
  pub access_token : Bytes
  pub refresh_token : Bytes

abbrev pub records : Option (List AuthorizedUserData) → List AuthorizedUserData
records none = []
records (some xs) = xs

-- `Add`.
unfoldable pub add :
    Dict (List AuthorizedUserData) → Option AuthorizedUserData → Dict (List AuthorizedUserData)
add messages none = messages
add messages (some entry) =
    insert entry.uid (records (lookup entry.uid messages) ++ (entry ∷ [])) messages

-- `GetAll`.
unfoldable pub get_all : Dict (List AuthorizedUserData) → Option Bytes → List AuthorizedUserData
get_all messages none = []
get_all messages (some uid) = records (lookup uid messages)

-- The loop of `Delete`, which takes out the first record of the credential.
unfoldable pub remove_first : Bytes → List AuthorizedUserData → List AuthorizedUserData
remove_first acid [] = []
remove_first acid (d ∷ ds) =
    let rest = remove_first acid ds in if bytes_eq d.acid acid then ds else d ∷ rest

-- The rest of `Delete`, behind the lookup of the user's list.
abbrev pub removed :
    Dict (List AuthorizedUserData)
    → Bytes
    → Bytes
    → Option (List AuthorizedUserData)
    → Dict (List AuthorizedUserData)
removed messages uid acid none = messages
removed messages uid acid (some xs) = insert uid (remove_first acid xs) messages

-- `Delete`.
unfoldable pub delete :
    Dict (List AuthorizedUserData) → Option Bytes → Option Bytes → Dict (List AuthorizedUserData)
delete messages none acid = messages
delete messages (some uid) none = messages
delete messages (some uid) (some acid) = removed messages uid acid (lookup uid messages)
