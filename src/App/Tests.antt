-- ===== src/App/Tests.antt =====
-- Configurations of the application and of the MCP server: the theorems at concrete inputs.
use fastgeoapi.Base.{
  ◌≡◌, ◌↔◌, refl, true, false, none, some, [], ◌∷◌, ok, err, locale_error, String, ◌<>◌,
}
use fastgeoapi.Base.Dict
use fastgeoapi.Base.Dict.{Dict}
use fastgeoapi.Base.Errors.{◌>>=◌}
use fastgeoapi.Json.{null}
use fastgeoapi.App.Config.{Config, is_set}
use fastgeoapi.App.Modes.{create_app, cli_security_schemes}
use fastgeoapi.App.Modes.Exclusive.{
  IsConsistent, described, create_app_iff, cli_security_schemes-create_app,
}
use fastgeoapi.App.McpServer.{
  McpServer, Surroundings, in_process, is_auth_configured, mcp_auth, create_mcp_server, Route,
}
use fastgeoapi.App.McpServer.FailClosed.{create_mcp_server_auth}
use fastgeoapi.App.Generator.{Paths, Generation, ensure_openapi_file_exists}
use fastgeoapi.App.Generator.Failures.{ensure_openapi_file_exists_after_failure}

abbrev pub cfg : Config
cfg = record {
  host = "localhost";
  port = "5000";
  app_uri = some "https://geo.example/";
  fastgeoapi_context = "/geoapi";
  fastgeoapi_reverse_proxy = true;
  opa_enabled = false;
  jwks_enabled = true;
  api_key_enabled = false;
  pygeoapi_key_global = none;
  oidc_well_known_endpoint = some "https://idp/.well-known/openid-configuration";
  oidc_client_id = "id";
  oidc_client_secret = "secret";
  oauth2_token_endpoint = some "https://idp/token";
  mcp_allow_unauthenticated = false;
  mcp_consent_mode = none;
  mcp_access_token_expiry_seconds = none;
}

abbrev no_oidc : Config
no_oidc = record cfg { oidc_well_known_endpoint = none }

abbrev pub around : Surroundings
around = record { openapi_exists = true; resolved_spec = ok null; build_pygeoapi_subapp = ok tt }

create_app_iff_example :
    (create_app cfg ≡ ok (described cfg)) ↔ (IsConsistent cfg × (described cfg ≡ described cfg))
create_app_iff_example = create_app_iff cfg (described cfg)

cli_security_schemes-create_app_example :
    cli_security_schemes cfg ≡ (create_app cfg >>= λ app. ok app.security_schemes)
cli_security_schemes-create_app_example = cli_security_schemes-create_app cfg

abbrev pub server : McpServer
server = record { openapi_spec = null; client = in_process; auth = some (mcp_auth cfg) }

starts : create_mcp_server none around cfg ≡ ok (some server)
unfolding create_mcp_server is_set
starts = refl

create_mcp_server_auth_example :
    ((server.auth ≡ none)
      ↔ ((is_auth_configured cfg ≡ false) × (cfg.mcp_allow_unauthenticated ≡ true)))
    × ((is_auth_configured cfg ≡ true) ↔ (server.auth ≡ some (mcp_auth cfg)))
create_mcp_server_auth_example = create_mcp_server_auth none around cfg server starts

not_configured : is_auth_configured no_oidc ≡ false
unfolding is_auth_configured is_set
not_configured = refl

abbrev discovery : Route
discovery = record {
  is_route = true;
  path = "/.well-known/oauth-protected-resource/mcp/";
  endpoint = "metadata";
  methods = "GET" ∷ [];
}

abbrev pub files : Paths
files = record { pygeoapi_config = "config.yml"; pygeoapi_openapi = "openapi.yml" }

abbrev pub no_files : Dict String
no_files = []

abbrev pub working : Generation
working = record { in_cwd = λ path. "/srv/" <> path; generate = λ path. ok "openapi: 3.0.2" }

abbrev pub failing : Generation
failing = record { in_cwd = λ path. "/srv/" <> path; generate = λ path. err locale_error }

pub generated : (ensure_openapi_file_exists working files no_files).0 ≡ ok "/srv/openapi.yml"
unfolding ensure_openapi_file_exists Dict.get
generated = refl

no_file : Dict.get "/srv/openapi.yml" no_files ≡ none
unfolding Dict.get
no_file = refl

ensure_openapi_file_exists_after_failure_example :
    let left = Dict.put "/srv/openapi.yml" "" no_files in
    (ensure_openapi_file_exists failing files no_files ≡ (err locale_error, left))
    × (ensure_openapi_file_exists working files left ≡ (ok "/srv/openapi.yml", left))
ensure_openapi_file_exists_after_failure_example =
    ensure_openapi_file_exists_after_failure failing working files no_files locale_error refl refl
      no_file refl
