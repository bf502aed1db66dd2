-- ===== src/Middleware/Provider.antt =====
-- app/auth/oauth2.py and app/config/auth.py: the container that the OAuth2 layer is configured with,
-- and the one that the settings choose. A compiled pattern is its text here, as in Middleware.Oauth2.
use fastgeoapi.Base.{String, Bool, Option, none, some, List, [], ◌∷◌, if◌then◌else◌}
use fastgeoapi.Json.{Value}
use fastgeoapi.Auth.Jwks.{Jose}
use fastgeoapi.Middleware.Scope.{Scope}
use fastgeoapi.Middleware.Oauth2.{Authentication}
use fastgeoapi.Middleware.Protected.{JwksSettings, jwks_authentication}

-- AuthInterface | list[AuthInterface]
pub data Authentications : Type 0 where
  single : Authentication → Authentications
  several : List Authentication → Authentications

pub record Injectable : Type 0 where
  pub key : String
  pub skip_endpoints : List String
  pub extract : Scope → List Value

pub record Oauth2Provider : Type 0 where
  pub authentication : List Authentication
  pub injectables : Option (List Injectable)
  pub accepted_methods : List String

-- An argument that may be None or empty, with what stands in for it.
unfoldable pub list_or : List String → Option (List String) → List String
list_or default none = default
list_or default (some []) = default
list_or default (some (x ∷ xs)) = x ∷ xs

-- Injectable.__init__, for a class with an `extract`
unfoldable pub injectable : String → Option (List String) → (Scope → List Value) → Injectable
unfolding list_or
injectable key skip_endpoints extract = record {
  key = key;
  skip_endpoints = list_or [] skip_endpoints;
  extract = extract;
}

as_list : Authentications → List Authentication
as_list (single auth) = auth ∷ []
as_list (several auths) = auths

-- Oauth2Provider.__init__
unfoldable pub oauth2_provider :
    Authentications → Option (List Injectable) → Option (List String) → Oauth2Provider
unfolding as_list list_or
oauth2_provider authentication injectables accepted_methods = record {
  authentication = as_list authentication;
  injectables = injectables;
  accepted_methods = list_or ("id_token" ∷ "access_token" ∷ []) accepted_methods;
}

-- The arguments of fastapi_opa's OIDCConfig and OPAConfig.
pub record OpaConfig : Type 0 where
  pub well_known_endpoint : Option String
  pub app_uri : Option String
  pub client_id : Option String
  pub client_secret : Option String
  pub opa_host : Option String

pub data AuthConfig : Type 0 where
  opa_config : OpaConfig → AuthConfig
  provider_config : Oauth2Provider → AuthConfig

-- The value of `auth_config` when the module is loaded; without a mode the name is not bound.
unfoldable pub auth_config :
    Jose → (opa_enabled jwks_enabled : Bool) → OpaConfig → JwksSettings → Option AuthConfig
unfolding oauth2_provider
auth_config jose opa_enabled jwks_enabled opa jwks =
    if opa_enabled
    then some (opa_config opa)
    else if jwks_enabled
    then some (provider_config (oauth2_provider (single (jwks_authentication jose jwks)) none none))
    else none
