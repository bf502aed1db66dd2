-- ===== src/App/Modes/Exclusive.antt =====
-- The modes exclude one another, and each puts its own layer around the API.
use fastgeoapi.Base.{
  ℕ, ◌+◌, ◌≤◌, ◌<>◌, ◌≡◌, ◌↔◌, Bool, true, false, List, [], ◌∷◌, ◌++◌, ok, arith, if◌then◌else◌,
}
use fastgeoapi.Base.Errors.{◌>>=◌}
use fastgeoapi.App.Config.{Config, is_set}
use fastgeoapi.App.Modes.{
  SecurityScheme, open_id_connect, oauth2, http_bearer, api_key, Layer, forwarded_links_middleware,
  opa_middleware, oauth2_middleware, authorizer_middleware, openapi_security_middleware, SubApp,
  create_app, cli_security_schemes,
}

one_if : Bool → ℕ
one_if true = 1
one_if false = 0

-- How many of the three flags are set.
unfoldable pub enabled_modes : Config → ℕ
unfolding one_if
enabled_modes cfg = one_if cfg.opa_enabled + one_if cfg.jwks_enabled + one_if cfg.api_key_enabled

-- At most one mode is on, and an API key is given where that mode is.
pub record IsConsistent (cfg : Config) : Type 0 where
  pub exclusive : enabled_modes cfg ≤ 1
  pub key : cfg.api_key_enabled ≡ true → is_set cfg.pygeoapi_key_global ≡ true

-- The layer of the mode that is on.
abbrev pub mode_layers : Config → List Layer
mode_layers cfg =
    if cfg.opa_enabled
    then opa_middleware ∷ []
    else if cfg.jwks_enabled
    then oauth2_middleware ∷ []
    else if cfg.api_key_enabled
    then authorizer_middleware (cfg.fastgeoapi_context <> "/openapi") "PYGEOAPI_KEY_" ∷ []
    else []

abbrev pub proxy_layers : Config → List Layer
proxy_layers cfg = if cfg.fastgeoapi_reverse_proxy then forwarded_links_middleware ∷ [] else []

abbrev pub security_layers : List SecurityScheme → List Layer
security_layers [] = []
security_layers (scheme ∷ schemes) = openapi_security_middleware (scheme ∷ schemes) ∷ []

abbrev pub mode_schemes : Config → List SecurityScheme
mode_schemes cfg =
    if cfg.opa_enabled
    then open_id_connect cfg.oidc_well_known_endpoint ∷ []
    else if cfg.jwks_enabled
    then oauth2 cfg.oauth2_token_endpoint ∷ http_bearer ∷ []
    else if cfg.api_key_enabled
    then api_key ∷ []
    else []

-- The application that a consistent configuration describes: the security layer outside the layer
-- of the mode, and that outside the layer for a reverse proxy.
abbrev pub described : Config → SubApp
described cfg = record {
  layers = security_layers (mode_schemes cfg) ++ (mode_layers cfg ++ proxy_layers cfg);
  security_schemes = mode_schemes cfg;
}

create_app_consistent : (cfg : Config) → IsConsistent cfg → create_app cfg ≡ ok (described cfg)
unfolding create_app enabled_modes
create_app_consistent cfg c = ground arith

create_app_exclusive :
    (cfg : Config) {app : SubApp} → create_app cfg ≡ ok app → enabled_modes cfg ≤ 1
unfolding create_app enabled_modes
create_app_exclusive cfg h = ground arith

create_app_key :
    (cfg : Config) {app : SubApp}
    → create_app cfg ≡ ok app
    → cfg.api_key_enabled ≡ true
    → is_set cfg.pygeoapi_key_global ≡ true
unfolding create_app
create_app_key cfg h on = ground arith

-- The application is built exactly for a configuration with at most one mode on, and an API key
-- where that mode is; it is then the one described, with the layer of the mode around the API.
pub create_app_iff :
    (cfg : Config) (app : SubApp)
    → (create_app cfg ≡ ok app) ↔ (IsConsistent cfg × (app ≡ described cfg))
create_app_iff cfg app = (
  λ h.
      let c : IsConsistent cfg = record {
        exclusive = create_app_exclusive cfg h;
        key = create_app_key cfg h;
      } in
      (c, cc (create_app_consistent cfg c)),
  λ (c, same). rw same (create_app_consistent cfg c),
)

-- The command line and the server choose the same security schemes, and fail for the same
-- configurations with the same exception.
pub cli_security_schemes-create_app :
    (cfg : Config) → cli_security_schemes cfg ≡ (create_app cfg >>= λ app. ok app.security_schemes)
unfolding create_app cli_security_schemes
cli_security_schemes-create_app cfg = ground arith
