-- ===== src/App/McpServer.antt =====
-- `create_mcp_server` of app/main.py and the routes that its caller mounts.
pub mod FailClosed
pub mod Routes
use fastgeoapi.Base.{
  String, ◌<>◌, Bool, true, false, ◌&&◌, Option, none, some, List, [], ◌∷◌, Result, ok, err,
  mcp_auth_misconfigured_error, if◌then◌else◌,
}
use fastgeoapi.Base.Errors.{◌>>=◌}
use fastgeoapi.Json.{Value}
use fastgeoapi.Text.{rstrip, ends_with}
use fastgeoapi.App.Config.{Config, is_set}
use fastgeoapi.Mcp.Settings.{OidcProxy, default_scopes, configure_mcp_auth}

-- The client that the MCP server sends its requests with: the caller's, or one that calls a raw
-- pygeoapi sub-application in the same process.
pub data ApiClient : Type 0 where
  given in_process : ApiClient

pub record McpServer : Type 0 where
  pub openapi_spec : Value
  pub client : ApiClient
  pub auth : Option OidcProxy

-- What the function finds around it: the file of PYGEOAPI_OPENAPI, what `resolve_external_refs`
-- returns for the document in it, and whether a raw sub-application can be built.
pub record Surroundings : Type 0 where
  pub openapi_exists : Bool
  pub resolved_spec : Result Value
  pub build_pygeoapi_subapp : Result (Unit {0})

text_of : Option String → String
text_of none = ""
text_of (some text) = text

-- cfg.JWKS_ENABLED and cfg.OIDC_WELL_KNOWN_ENDPOINT
unfoldable pub is_auth_configured : Config → Bool
unfolding is_set
is_auth_configured cfg = cfg.jwks_enabled && is_set cfg.oidc_well_known_endpoint

unfoldable pub mcp_base_url : Config → String
unfolding is_set text_of rstrip
mcp_base_url cfg =
    if is_set cfg.app_uri
    then rstrip b'/' (text_of cfg.app_uri) <> "/mcp/"
    else "http://" <> (cfg.host <> (":" <> (cfg.port <> "/mcp/")))

unfoldable pub mcp_auth : Config → OidcProxy
unfolding mcp_base_url
mcp_auth cfg =
    configure_mcp_auth (text_of cfg.oidc_well_known_endpoint) cfg.oidc_client_id
      cfg.oidc_client_secret (mcp_base_url cfg) (some default_scopes) cfg.mcp_consent_mode
      cfg.mcp_access_token_expiry_seconds

-- The refusal to start, and the choice of the provider.
unfoldable pub choose_auth : Config → Result (Option OidcProxy)
unfolding is_auth_configured
choose_auth cfg =
    if is_auth_configured cfg
    then ok (some (mcp_auth cfg))
    else if cfg.mcp_allow_unauthenticated
    then ok none
    else err mcp_auth_misconfigured_error

choose_client : Option ApiClient → Result (Unit {0}) → Result ApiClient
choose_client (some client) subapp = ok client
choose_client none subapp = do _ ← subapp; ok in_process

start : Option ApiClient → Surroundings → Config → Result (Option McpServer)
unfolding choose_client choose_auth
start api_client around cfg = do
  spec ← around.resolved_spec
  client ← choose_client api_client around.build_pygeoapi_subapp
  auth ← choose_auth cfg
  ok (some (record { openapi_spec = spec; client = client; auth = auth }))

-- Without the OpenAPI file there is no MCP server.
unfoldable pub create_mcp_server :
    Option ApiClient → Surroundings → Config → Result (Option McpServer)
unfolding start
create_mcp_server api_client around cfg =
    if around.openapi_exists then start api_client around cfg else ok none

-- A route of Starlette, by its path and its endpoint; a mount is no `Route`.
pub record Route : Type 0 where
  pub is_route : Bool
  pub path : String
  pub endpoint : String
  pub methods : List String

abbrev pub alias_of : Route → Route
alias_of route = record route { path = rstrip b'/' route.path }

-- app.router.routes.insert(0, route), and the alias before it
unfoldable pub mount_route : Route → List Route → List Route
mount_route route routes =
    if route.is_route && ends_with route.path "/"
    then alias_of route ∷ route ∷ routes
    else route ∷ routes

-- the loop over the well-known routes
unfoldable pub mount_well_known : List Route → List Route → List Route
unfolding mount_route
mount_well_known [] routes = routes
mount_well_known (route ∷ well_known) routes =
    mount_well_known well_known (mount_route route routes)
