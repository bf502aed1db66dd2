-- ===== src/App/McpServer/FailClosed.antt =====
-- The MCP server does not start without authentication, unless that is asked for.
use fastgeoapi.Base.{
  ◌≡◌, ◌↔◌, true, false, Option, none, some, ok, err, mcp_auth_misconfigured_error, arith,
}
use fastgeoapi.Json.{Value}
use fastgeoapi.App.Config.{Config}
use fastgeoapi.App.McpServer.{
  ApiClient, McpServer, Surroundings, is_auth_configured, mcp_auth, choose_auth, create_mcp_server,
}

-- The provider that a started server has.
pub started_auth :
    (api_client : Option ApiClient) (around : Surroundings) (cfg : Config) (server : McpServer)
    → create_mcp_server api_client around cfg ≡ ok (some server)
    → choose_auth cfg ≡ ok server.auth
unfolding create_mcp_server
started_auth api_client around cfg server h = ground arith

-- A server that starts has no authentication exactly where JWKS or the OIDC endpoint is missing,
-- and then only by the explicit opt-in; otherwise it has the configured provider.
pub create_mcp_server_auth :
    (api_client : Option ApiClient) (around : Surroundings) (cfg : Config) (server : McpServer)
    → create_mcp_server api_client around cfg ≡ ok (some server)
    → ((server.auth ≡ none)
        ↔ ((is_auth_configured cfg ≡ false) × (cfg.mcp_allow_unauthenticated ≡ true)))
      × ((is_auth_configured cfg ≡ true) ↔ (server.auth ≡ some (mcp_auth cfg)))
unfolding choose_auth
create_mcp_server_auth api_client around cfg server h =
    ground (arith, started_auth api_client around cfg server h)

-- Where the OpenAPI file is there, its document is resolved and the client can be built, a missing
-- JWKS or OIDC setting without the opt-in makes the start fail with MCPAuthMisconfiguredError.
pub create_mcp_server_refuses :
    (around : Surroundings) (cfg : Config) (spec : Value)
    → around.openapi_exists ≡ true
    → around.resolved_spec ≡ ok spec
    → around.build_pygeoapi_subapp ≡ ok tt
    → is_auth_configured cfg ≡ false
    → cfg.mcp_allow_unauthenticated ≡ false
    → create_mcp_server none around cfg ≡ err mcp_auth_misconfigured_error
unfolding create_mcp_server
create_mcp_server_refuses around cfg spec there resolved built missing closed =
    ground (arith, missing)
