-- ===== src/Access/Contracts.antt =====
-- src/common/interfaces/auth-context.interface.ts, and the results of src/auth.
use iam_access_control_servi.Prelude.{String, Bool, Option, List}

pub record AuthContext : Type 0 where
  pub user_id : String
  pub tenant_id : String
  pub email : Option String
  pub roles : List String
  pub permissions : List String
  pub is_service : Bool
  pub correlation_id : Option String

pub data TokenType : Type 0 where
  access_token refresh_token : TokenType

-- What a token holds; a field that a token may lack is an option.
pub record JwtPayload : Type 0 where
  pub sub : String
  pub tenant_id : String
  pub email : Option String
  pub roles : Option (List String)
  pub permissions : Option (List String)
  pub is_service : Option Bool
  pub token_type : Option TokenType

-- `LoginInput`
pub record LoginInput : Type 0 where
  pub tenant_slug : String
  pub email : String
  pub password : String

pub record AuthPayload : Type 0 where
  pub access_token : String
  pub refresh_token : String
  pub expires_in : String
  pub user_id : String
  pub tenant_id : String
  pub email : String
  pub roles : List String
  pub permissions : List String

pub record ServiceAuthPayload : Type 0 where
  pub access_token : String
  pub expires_in : String
  pub tenant_id : String
  pub service_name : String

-- The result of validating an API key.
pub record ServicePrincipal : Type 0 where
  pub id : String
  pub tenant_id : String
  pub name : String
