-- ===== src/Rp/Store.antt =====
-- RP/storage.go: the users that are logged in, and the key K_S of each login that is under way.
use orionlink.Prelude.{
  Option, none, some, Bytes, is_empty, if◌then◌else◌, Dict, lookup, insert, erase,
}

-- `rpUser`.
pub record RpUser : Type 0 where
  pub uid : Bytes
  pub username : Bytes
  pub email : Bytes
  pub sub : Bytes
  pub access_token : Bytes

-- `RPUserState`.
pub record RpUserState : Type 0 where
  pub user : RpUser
  pub ks : Bytes
  pub access_token : Bytes

-- `TempAAKEState`.
pub record TempAakeState : Type 0 where
  pub ks : Bytes

-- `tempStorageService`.
pub record RpStorage : Type 0 where
  pub user_states : Dict RpUserState
  pub aake_states : Dict TempAakeState

-- `RPUserStateStore.Save`.
unfoldable pub save_user_state : RpStorage → Bytes → Option RpUserState → RpStorage
save_user_state s auid none = s
save_user_state s auid (some state) =
    if is_empty auid then s else record s { user_states = insert auid state s.user_states }

unfoldable pub get_user_state : RpStorage → Bytes → Option RpUserState
get_user_state s auid = lookup auid s.user_states

unfoldable pub delete_user_state : RpStorage → Bytes → RpStorage
delete_user_state s auid = record s { user_states = erase auid s.user_states }

-- `TempAAKEStateStore.Save`.
unfoldable pub save_aake_state : RpStorage → Bytes → Option TempAakeState → RpStorage
save_aake_state s state none = s
save_aake_state s state (some entry) =
    if is_empty state then s else record s { aake_states = insert state entry s.aake_states }

unfoldable pub get_aake_state : RpStorage → Bytes → Option TempAakeState
get_aake_state s state = lookup state s.aake_states

unfoldable pub delete_aake_state : RpStorage → Bytes → RpStorage
delete_aake_state s state = record s { aake_states = erase state s.aake_states }
