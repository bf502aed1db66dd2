-- ===== src/App/Modes.antt =====
-- The authentication modes: `create_app` of app/main.py, from the sub-application on, and the same
-- choice in the `openapi` command of app/cli.py.
pub mod Exclusive
use fastgeoapi.Base.{
  String, ◌<>◌, Bool, true, false, not, ◌||◌, Option, none, some, List, [], ◌∷◌, Result, ok, err,
  value_error, if◌then◌else◌,
}
use fastgeoapi.Base.Errors.{◌>>=◌}
use fastgeoapi.App.Config.{Config, is_set}

pub data SecurityScheme : Type 0 where
  open_id_connect : (url : Option String) → SecurityScheme
  oauth2 : (token_url : Option String) → SecurityScheme
  http_bearer api_key : SecurityScheme

-- The `type` of a scheme.
abbrev pub scheme_type : SecurityScheme → String
scheme_type (open_id_connect url) = "openIdConnect"
scheme_type (oauth2 token_url) = "oauth2"
scheme_type http_bearer = "http"
scheme_type api_key = "apiKey"

-- The middleware that is added around the pygeoapi sub-application.
pub data Layer : Type 0 where
  forwarded_links_middleware opa_middleware oauth2_middleware : Layer
  authorizer_middleware : (public_path key_pattern : String) → Layer
  openapi_security_middleware : List SecurityScheme → Layer

-- The layers, the outermost first: Starlette puts a layer that is added around those before it.
pub record SubApp : Type 0 where
  pub layers : List Layer
  pub security_schemes : List SecurityScheme

add_middleware : Layer → SubApp → SubApp
add_middleware layer app = record app { layers = layer ∷ app.layers }

with_schemes : List SecurityScheme → SubApp → SubApp
with_schemes schemes app = record app { security_schemes = schemes }

abbrev bare : SubApp
bare = record { layers = []; security_schemes = [] }

add_forwarded : Config → SubApp → SubApp
unfolding add_middleware
add_forwarded cfg app =
    if cfg.fastgeoapi_reverse_proxy then add_middleware forwarded_links_middleware app else app

add_opa : Config → SubApp → Result SubApp
unfolding add_middleware with_schemes
add_opa cfg app =
    if cfg.api_key_enabled || cfg.jwks_enabled
    then err value_error
    else ok (
        with_schemes (open_id_connect cfg.oidc_well_known_endpoint ∷ [])
          (add_middleware opa_middleware app))

add_jwks : Config → SubApp → Result SubApp
unfolding add_middleware with_schemes
add_jwks cfg app =
    if cfg.api_key_enabled || cfg.opa_enabled
    then err value_error
    else ok (
        with_schemes (oauth2 cfg.oauth2_token_endpoint ∷ http_bearer ∷ [])
          (add_middleware oauth2_middleware app))

add_api_key : Config → SubApp → Result SubApp
unfolding add_middleware with_schemes is_set
add_api_key cfg app =
    if cfg.opa_enabled
    then err value_error
    else if not (is_set cfg.pygeoapi_key_global)
    then err value_error
    else ok (
        with_schemes (api_key ∷ []) (
          add_middleware
            (authorizer_middleware (cfg.fastgeoapi_context <> "/openapi") "PYGEOAPI_KEY_") app))

-- the if-elif chain over the modes
add_mode : Config → SubApp → Result SubApp
unfolding add_opa add_jwks add_api_key
add_mode cfg app =
    if cfg.opa_enabled
    then add_opa cfg app
    else if cfg.jwks_enabled
    then add_jwks cfg app
    else if cfg.api_key_enabled
    then add_api_key cfg app
    else ok app

-- `if security_schemes:`
add_security : SubApp → SubApp
unfolding add_middleware
add_security app = elim app.security_schemes [
  | [] ↦ app
  | scheme ∷ schemes ↦ add_middleware (openapi_security_middleware app.security_schemes) app
]

-- `create_app` as far as the sub-application goes, once it is built.
unfoldable pub create_app : Config → Result SubApp
unfolding add_forwarded add_mode add_security
create_app cfg = do app ← add_mode cfg (add_forwarded cfg bare); ok (add_security app)

-- The schemes that the `openapi` command of app/cli.py hands to `augment_security`.
unfoldable pub cli_security_schemes : Config → Result (List SecurityScheme)
unfolding is_set
cli_security_schemes cfg =
    if cfg.opa_enabled
    then if cfg.api_key_enabled || cfg.jwks_enabled
      then err value_error
      else ok (open_id_connect cfg.oidc_well_known_endpoint ∷ [])
    else if cfg.jwks_enabled
    then if cfg.api_key_enabled || cfg.opa_enabled
      then err value_error
      else ok (oauth2 cfg.oauth2_token_endpoint ∷ http_bearer ∷ [])
    else if cfg.api_key_enabled
    then if cfg.opa_enabled
      then err value_error
      else if not (is_set cfg.pygeoapi_key_global)
      then err value_error
      else ok (api_key ∷ [])
    else ok []
