-- ===== src/App/Program/Admitted.antt =====
-- With credentials there is a way to pygeoapi.
use fastgeoapi.Base.{
  String, ◌≡◌, refl, ap, ◌∙◌, Bool, true, false, Option, none, some, List, Result, ok, arith, All,
}
use fastgeoapi.Json.{Fields}
use fastgeoapi.Auth.Jwks.Accepts.{Authenticates}
use fastgeoapi.Middleware.Scope.{Scope, http, header}
use fastgeoapi.Middleware.Protected.{jwks_config}
use fastgeoapi.Middleware.Responder.{Message, is_openapi_route}
use fastgeoapi.Mcp.Bearer.{served, lacks, bearer_middleware}
use fastgeoapi.Mcp.Bearer.Replies.{bearer_middleware_iff}
use fastgeoapi.App.Config.{Config}
use fastgeoapi.App.McpServer.{McpServer, is_auth_configured, mcp_auth}
use fastgeoapi.App.Stack.{Asgi, Packages, LayerSettings}
use fastgeoapi.App.Stack.Isolation.{inside, serve_admitted}
use fastgeoapi.App.Root.{RootRoute, mcp_mount, api_mount, RootApp, World, start_app, handle}
use fastgeoapi.App.Root.Routing.{routed}
use fastgeoapi.App.Program.{
  McpPackages, Endpoints, send_reply, guarded, behind_provider, mcp_app, mounted, dispatch_to,
  cors_arguments, with_cors, simple, answer_request,
}
use fastgeoapi.App.Program.Sealed.{IsSealed, start_app-IsSealed}

module _ (packages : Packages) (settings : LayerSettings) (mcp : McpPackages)
    (endpoints : Endpoints) (matches : RootRoute → Scope → Bool) where
  -- A route, the credentials that it asks for, and what answers then: at the API, in an HTTP request and
  -- not for the OpenAPI document, a token that is accepted, and pygeoapi inside the layers; at /mcp,
  -- for none of the provider's own routes, a user with the required scopes, and the tools.
  pub data Reaches (cfg : Config) (app : RootApp) (pygeoapi : Asgi) (scope : Scope)
      : Option RootRoute → Result (List Message) → Type 0 where
    by_api :
        {path : String}
        → (claims : Fields) → scope.type ≡ http
        → is_openapi_route settings.fastgeoapi_context scope ≡ false
        → Authenticates packages.jose
            (jwks_config settings.jwks)
            (header "authorization" scope.headers)
            claims
        → Reaches cfg app pygeoapi scope
            (some (api_mount path))
            (inside packages settings cfg pygeoapi scope)
    by_mcp :
        (server : McpServer)
        → app.mcp ≡ some server
        → mcp.provider_routes scope ≡ none
        → (mcp.authenticated scope).is_authenticated ≡ true
        → All (λ r. lacks (mcp.authenticated scope).auth_scopes r ≡ false) mcp.required_scopes
        → Reaches cfg app pygeoapi scope (some mcp_mount) (mcp.tools pygeoapi scope)

  guarded_served :
      (app : Asgi) (provided : Bool) (scope : Scope)
      → (bearer_middleware mcp.required_scopes mcp.resource_metadata_url provided
          (mcp.authenticated scope)).1
        ≡ served
      → (guarded packages settings mcp endpoints matches app provided scope).1 ≡ app scope
  unfolding guarded send_reply
  guarded_served app provided scope h = rw h refl

  mounted_served :
      (server : McpServer) (cfg : Config) (pygeoapi : Asgi) (provided : Bool) (scope : Scope)
      → server.auth ≡ some (mcp_auth cfg)
      → mcp.provider_routes scope ≡ none
      → (bearer_middleware mcp.required_scopes mcp.resource_metadata_url provided
          (mcp.authenticated scope)).1
        ≡ served
      → (mounted packages settings mcp endpoints matches (some server) pygeoapi provided scope).1
        ≡ mcp.tools pygeoapi scope
  unfolding mounted mcp_app behind_provider
  mounted_served server cfg pygeoapi provided scope authed open_route h =
      rw (authed, open_route) (guarded_served (mcp.tools pygeoapi) provided scope h)

  dispatch_to-Reaches :
      (cfg : Config) (app : RootApp) (ready provided : Bool) (pygeoapi : Asgi) (scope : Scope)
      (route : Option RootRoute) (answer : Result (List Message))
      → IsSealed cfg app
      → cfg.jwks_enabled ≡ true
      → Reaches cfg app pygeoapi scope route answer
      → (dispatch_to packages settings mcp endpoints matches app ready pygeoapi provided scope
          route).1
        ≡ answer
  unfolding dispatch_to
  dispatch_to-Reaches cfg app ready provided pygeoapi scope _ _ sealed on
        (by_api claims request plain accepted) =
      serve_admitted packages settings cfg app.api scope pygeoapi claims sealed.made on request
        accepted
      ∙ rw plain refl
  dispatch_to-Reaches cfg app ready provided pygeoapi scope _ _ sealed on
        (by_mcp server has_server open_route known held) =
      rw has_server (
        mounted_served server cfg pygeoapi provided scope (sealed.provided server has_server)
          open_route
          ((bearer_middleware_iff mcp.required_scopes mcp.resource_metadata_url provided
              (mcp.authenticated scope)).1
            (known, held)))

-- The program as a whole, in the JWKS mode with an OIDC endpoint, for a request that is no preflight: an
-- HTTP request to the API with an accepted token, but not for the OpenAPI document, is answered as
-- pygeoapi inside its layers answers it, and a request to the MCP server of a user with the required
-- scopes, but not for a route of the provider, as the tools answer it; either way whatever the guard
-- remembers of earlier requests, and with the headers that the CORS layer adds.
pub answer_request-Reaches :
    (packages : Packages) (settings : LayerSettings) (mcp : McpPackages) (endpoints : Endpoints)
    (matches : RootRoute → Scope → Bool) (world : World) (cfg : Config) (with_mcp : Bool)
    (app : RootApp) (ready provided : Bool) (pygeoapi : Asgi) (scope : Scope)
    (answer : Result (List Message))
    → start_app world cfg with_mcp ≡ ok app
    → is_auth_configured cfg ≡ true
    → (endpoints.cors cors_arguments).preflight_response (routed app scope) ≡ none
    → Reaches packages settings mcp endpoints matches cfg app pygeoapi
        (routed app scope)
        (handle matches app scope)
        answer
    → (answer_request packages settings mcp endpoints matches app ready pygeoapi provided scope).1
      ≡ simple packages settings mcp endpoints matches (routed app scope) answer
unfolding answer_request with_cors is_auth_configured
answer_request-Reaches packages settings mcp endpoints matches world cfg with_mcp app ready provided
      pygeoapi scope answer started configured no_preflight reaches =
    rw no_preflight (
      ap (simple packages settings mcp endpoints matches (routed app scope)) (
        dispatch_to-Reaches packages settings mcp endpoints matches cfg app ready provided pygeoapi
          (routed app scope) (handle matches app scope) answer
          (start_app-IsSealed world cfg with_mcp app started configured) (ground arith) reaches))
