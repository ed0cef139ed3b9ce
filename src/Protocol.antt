-- ===== src/Protocol.antt =====
-- internal/protocol: the messages of the login, as records. A Go byte slice that may be nil is a
-- `Slice`.
use orionlink.Prelude.{ℕ, List, Bytes, Slice}

pub record CGroup : Type 0 where
  pub c1 : Slice
  pub c2 : Slice
  pub c3 : Slice

pub record RGroup : Type 0 where
  pub r1 : Slice
  pub r2 : Slice
  pub r3 : Slice

pub record ZGroup : Type 0 where
  pub zd : Slice
  pub zqsk : Slice
  pub z1 : Slice
  pub z2 : Slice
  pub z3 : Slice

pub record E2ee : Type 0 where
  pub client_pk : Slice
  pub client_emp_pk : Slice
  pub idp_emp_key_id : Bytes
  pub msg : Slice

pub record AakeGenPokRequest : Type 0 where
  pub r_sig1 : Slice
  pub t : Slice
  pub state : Bytes

pub record AakeGenPokResponse : Type 0 where
  pub sign1 : Slice
  pub sign2 : Slice
  pub c : CGroup
  pub r : RGroup
  pub z : ZGroup
  pub e2ee : E2ee

-- `AAKETokenRequest`: the RP's answer, forwarded whole, and the code of the consent.
pub record AakeTokenRequest : Type 0 where
  pub pok : AakeGenPokResponse
  pub open pok use *
  pub code : Bytes

pub record AakeTokenResponse : Type 0 where
  pub auid : Bytes
  pub id_token : Bytes
  pub access_token : Bytes
  pub token_type : Bytes
  pub refresh_token : Bytes

pub record AakeTokenToRpResponse : Type 0 where
  pub uid_rp : Bytes
  pub id_token : Bytes
  pub access_token : Bytes
  pub token_type : Bytes

pub record RefreshTokenFromBrokerRequest : Type 0 where
  pub hdr : Slice
  pub seq : ℕ
  pub refresh_token : Bytes

pub record RefreshTokenToRpResponse : Type 0 where
  pub hdr : Slice
  pub seq : ℕ
  pub c : Slice

pub record AakeTokenFromRpRequest : Type 0 where
  pub grant_type : Bytes
  pub code : Bytes

pub record IdpEmpKeyResponse : Type 0 where
  pub kid : Bytes
  pub pk : Slice

pub record UnblindAuidRequest : Type 0 where
  pub auid : Bytes
  pub k : Slice

pub record RefreshTokenFromRpRequest : Type 0 where
  pub tid : Bytes
  pub uid_rp : Bytes

pub record RpRegisterToIdpRequest : Type 0 where
  pub domain : Bytes
  pub c1 : Slice
  pub r1 : Slice
  pub z0 : Slice
  pub zs : List Slice

pub record RpRegisterToIdpResponse : Type 0 where
  pub sig1 : Bytes
  pub blind_sig2 : Bytes

pub record RpRegisterToBrokerRequest : Type 0 where
  pub domain : Bytes
  pub sig1 : Bytes
  pub scopes : List Bytes
  pub callback_url : Bytes
  pub rp_dh_pks : List Bytes

pub record PsPublicKeyResponse : Type 0 where
  pub yn : List Slice
  pub xhat : Slice
  pub yhatn : List Slice

pub record IdpCredKeyResponse : Type 0 where
  pub vk1 : PsPublicKeyResponse
  pub vk2 : PsPublicKeyResponse
  pub aake_pk : Slice
