-- ===== src/App/Config.antt =====
-- The settings of app/config/app.py that app/main.py and app/cli.py read. A flag is the truth value
-- of the setting, so that an unset flag is false.
use fastgeoapi.Base.{String, Bool, false, not, Option, none, some, ◌==◌}
use fastgeoapi.Base.Int.{ℤ}

pub record Config : Type 0 where
  pub host : String
  pub port : String
  pub app_uri : Option String
  pub fastgeoapi_context : String
  pub fastgeoapi_reverse_proxy : Bool
  pub opa_enabled : Bool
  pub jwks_enabled : Bool
  pub api_key_enabled : Bool
  pub pygeoapi_key_global : Option String
  pub oidc_well_known_endpoint : Option String
  pub oidc_client_id : String
  pub oidc_client_secret : String
  pub oauth2_token_endpoint : Option String
  pub mcp_allow_unauthenticated : Bool
  pub mcp_consent_mode : Option String
  pub mcp_access_token_expiry_seconds : Option ℤ

-- Whether `if text:` takes the branch.
unfoldable pub is_set : Option String → Bool
is_set none = false
is_set (some text) = not (text == "")
