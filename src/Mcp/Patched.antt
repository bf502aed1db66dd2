-- ===== src/Mcp/Patched.antt =====
-- `patch_fastmcp_auth_middleware` and OIDCProxyWithoutResource of app/auth/mcp_auth_provider.py: which
-- layers stand in front of the MCP application.
use fastgeoapi.Base.{◌≡◌, refl, List, [], ◌∷◌}
use fastgeoapi.Mcp.Audience.{Authenticator, patch_audience}
use fastgeoapi.Mcp.Audience.Collapse.{patch_audience_idempotent}
use fastgeoapi.Mcp.Settings.{OidcProxy}

-- What the name RequireAuthMiddleware stands for: the class of the SDK or the one of the program.
pub data RequireAuth : Type 0 where
  sdk_require_auth rfc6750_compliant_auth : RequireAuth

-- The two modules of fastmcp that have the name.
pub record FastmcpModules : Type 0 where
  pub server_auth_middleware : RequireAuth
  pub server_http : RequireAuth

unfoldable pub patch_fastmcp_auth_middleware : FastmcpModules → FastmcpModules
patch_fastmcp_auth_middleware modules = record {
  server_auth_middleware = rfc6750_compliant_auth;
  server_http = rfc6750_compliant_auth;
}

-- Middleware(AuthenticationMiddleware, backend=BearerAuthBackend(provider)), Middleware(AuthContext…)
pub data ProviderLayer : Type 0 where
  authentication_middleware : OidcProxy → ProviderLayer
  auth_context_middleware : ProviderLayer

-- OIDCProxyWithoutResource.get_middleware, from the outermost layer on
unfoldable pub get_middleware : OidcProxy → List ProviderLayer
get_middleware provider = authentication_middleware provider ∷ auth_context_middleware ∷ []

-- What `configure_mcp_auth` patches before it builds the provider.
pub record FastmcpState : Type 0 where
  pub modules : FastmcpModules
  pub authenticator : Authenticator

unfoldable pub patch_fastmcp : FastmcpState → FastmcpState
unfolding patch_fastmcp_auth_middleware patch_audience
patch_fastmcp s = record {
  modules = patch_fastmcp_auth_middleware s.modules;
  authenticator = patch_audience s.authenticator;
}

-- A second provider finds everything patched and changes nothing.
pub patch_fastmcp_idempotent :
    (s : FastmcpState) → patch_fastmcp (patch_fastmcp s) ≡ patch_fastmcp s
unfolding patch_fastmcp
patch_fastmcp_idempotent s = rw (patch_audience_idempotent s.authenticator) refl
