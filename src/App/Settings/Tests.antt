-- ===== src/App/Settings/Tests.antt =====
-- A container with the six required variables and no others.
use fastgeoapi.Base.{
  String, ◌≡◌, ◌↔◌, inr, refl, true, false, Option, none, some, [], ok, arith, ◌==◌, if◌then◌else◌,
}
use fastgeoapi.Json.{null}
use fastgeoapi.App.Config.{Config, is_set}
use fastgeoapi.App.Modes.{create_app}
use fastgeoapi.App.McpServer.{McpServer, in_process, is_auth_configured, create_mcp_server}
use fastgeoapi.App.Root.{RootApp, root_of, mount_mcp, start_app}
use fastgeoapi.App.Root.Tests.{world}
use fastgeoapi.App.Startup.{build_pygeoapi_subapp}
use fastgeoapi.App.Settings.{
  Environment, Settings, required, with_default, parsed, optional, flag, settings, configuration,
  config_of,
}
use fastgeoapi.App.Settings.Explicit.{IsSetTrue, start_app-IsSetTrue}
use fastgeoapi.App.Settings.Defaults.{
  IsMinimal, minimal, IsUnknown, configuration-minimal, configuration-none_iff,
}

field : String → String → Option String
field env_prefix name =
    if name == "PYGEOAPI_BASEURL"
    then some "http://localhost:5000"
    else if name == "PYGEOAPI_CONFIG"
    then some "config.yml"
    else if name == "PYGEOAPI_OPENAPI"
    then some "openapi.yml"
    else if name == "FASTGEOAPI_CONTEXT"
    then some "/geoapi"
    else none

abbrev container : Environment
container = record {
  field = λ env_prefix name.
      if env_prefix == ""
      then (if name == "HOST"
          then some "0.0.0.0"
          else if name == "PORT"
          then some "5000"
          else if name == "ENV_STATE"
          then some "prod"
          else none)
      else field env_prefix name;
  alias = λ name.
      if name == "HOST" then some "0.0.0.0" else if name == "PORT" then some "5000" else none;
  parse_bool = λ text. none;
  parse_int = λ text. none;
  temp_dir = "/tmp";
}

is_minimal :
    IsMinimal container "PROD_" "0.0.0.0" "5000" "http://localhost:5000" "config.yml" "openapi.yml"
      "/geoapi"
unfolding field
is_minimal = record {
  host_set = refl;
  port_set = refl;
  baseurl_set = refl;
  config_set = refl;
  openapi_set = refl;
  context_set = refl;
  others_unset = λ name h. ground (arith, h);
}

abbrev nowhere : Environment
nowhere = record container {
  field = λ env_prefix name.
      if name == "HOST" then some "h" else if name == "PORT" then some "1" else none;
}

configuration-minimal_example :
    let s =
      minimal "/tmp" "0.0.0.0" "5000" "http://localhost:5000" "config.yml" "openapi.yml"
        "/geoapi" in
    (configuration container ≡ ok (some s))
    × (create_app (config_of s "id" "secret") ≡ ok (record { layers = []; security_schemes = [] }))
    × (is_auth_configured (config_of s "id" "secret") ≡ false)
configuration-minimal_example =
    configuration-minimal container "prod" "PROD_" "0.0.0.0" "5000" "http://localhost:5000"
      "config.yml" "openapi.yml" "/geoapi" "id" "secret" refl refl refl (inr (refl, refl))
      is_minimal

configuration-none_iff_example : (configuration nowhere ≡ ok none) ↔ (
    (host port : String) × (nowhere.field "" "HOST" ≡ some host)
    × (nowhere.field "" "PORT" ≡ some port)
    × IsUnknown (nowhere.field "" "ENV_STATE"))
configuration-none_iff_example = configuration-none_iff nowhere

-- The same container with the two variables of the MCP server.
abbrev open_container : Environment
open_container = record container {
  field = λ env_prefix name.
      if name == "FASTGEOAPI_WITH_MCP"
      then some "yes"
      else if name == "FASTGEOAPI_MCP_ALLOW_UNAUTHENTICATED"
      then some "yes"
      else container.field env_prefix name;
  parse_bool = λ text. if text == "yes" then some true else none;
}

abbrev open_settings : Settings
open_settings =
    record (minimal "/tmp" "0.0.0.0" "5000" "http://localhost:5000" "config.yml" "openapi.yml"
      "/geoapi") { fastgeoapi_with_mcp = true; fastgeoapi_mcp_allow_unauthenticated = true }

loaded : settings open_container "PROD_" ≡ ok open_settings
unfolding settings required optional flag parsed with_default field
loaded = refl

abbrev open_config : Config
open_config = config_of open_settings "id" "secret"

abbrev open_server : McpServer
open_server = record { openapi_spec = null; client = in_process; auth = none }

abbrev open_app : RootApp
open_app =
    mount_mcp world open_config open_server
      (root_of world open_config (record { layers = []; security_schemes = [] }) true)

open_starts : start_app world open_config true ≡ ok open_app
unfolding start_app create_mcp_server create_app build_pygeoapi_subapp is_set config_of
open_starts = refl

open_serves : open_app.mcp ≡ some open_server
unfolding mount_mcp
open_serves = refl

start_app-IsSetTrue_example :
    IsSetTrue open_container "PROD_" "FASTGEOAPI_WITH_MCP"
    × IsSetTrue open_container "PROD_" "FASTGEOAPI_MCP_ALLOW_UNAUTHENTICATED"
    × (is_auth_configured open_config ≡ false)
start_app-IsSetTrue_example =
    start_app-IsSetTrue open_container "PROD_" open_settings "id" "secret" world open_app
      open_server loaded open_starts open_serves refl
