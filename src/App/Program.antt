-- ===== src/App/Program.antt =====
-- The whole program at work: what a request to the root application of app/main.py is answered,
-- through its routes, the layers around pygeoapi and the guard of the MCP application.
pub mod Sealed
pub mod Admitted
mod Tests
use fastgeoapi.Base.{
  ℕ, String, ◌<>◌, Bool, true, false, Option, none, some, List, [], ◌∷◌, Result, ok, err,
  if◌then◌else◌,
}
use fastgeoapi.Middleware.Scope.{Scope}
use fastgeoapi.Middleware.Proxy.{rewrite_mount_root}
use fastgeoapi.Middleware.Responder.{Message, start, body}
use fastgeoapi.Mcp.Bearer.{McpScope, McpReply, auth_error, missing_token, served, bearer_middleware}
use fastgeoapi.Mcp.Settings.{OidcProxy}
use fastgeoapi.App.McpServer.{Route, McpServer}
use fastgeoapi.App.Stack.{Asgi, Packages, LayerSettings, serve}
use fastgeoapi.App.Root.{
  RootRoute, default_route, discovery, healthz, readyz, mcp_mount, api_mount, RootApp, handle,
}

-- What FastMCP and the MCP SDK do at /mcp: the routes that the provider answers by itself, the scope
-- that the authentication of the SDK leaves, its error response, and the tools, which send their
-- requests to an application. The provider gives the guard its scopes and its metadata URL.
pub record McpPackages : Type 0 where
  pub provider_routes : Scope → Option (Result (List Message))
  pub authenticated : Scope → McpScope
  pub auth_error_response : ℕ → String → String → List Message
  pub required_scopes : List String
  pub resource_metadata_url : Option String
  pub tools : Asgi → Asgi

pub record CorsArguments : Type 0 where
  pub allow_origins : List String
  pub allow_credentials : Bool
  pub allow_methods : List String
  pub allow_headers : List String

-- The settings of the CORS layer in `create_app`.
abbrev pub cors_arguments : CorsArguments
cors_arguments = record {
  allow_origins = "*" ∷ [];
  allow_credentials = true;
  allow_methods = "*" ∷ [];
  allow_headers = "*" ∷ [];
}

-- Starlette's CORSMiddleware: the preflight requests that it answers by itself, and the headers that
-- it adds to the answers to all others.
pub record Cors : Type 0 where
  pub preflight_response : Scope → Option (List Message)
  pub simple_response : Scope → List Message → List Message

-- The endpoints of FastAPI and of the discovery routes, the answer where no route matches, and the
-- CORS layer around them.
pub record Endpoints : Type 0 where
  pub endpoint : Route → Asgi
  pub no_route : Asgi
  pub cors : CorsArguments → Cors

-- json.dumps of the body
abbrev pub unauthorized_body : String
unauthorized_body =
    "{\"error\": \"unauthorized\", \"error_description\": \"Authentication required. Please authenticate to access this resource.\"}"

module _ (packages : Packages) (cfg : LayerSettings) (mcp : McpPackages) (endpoints : Endpoints)
    (matches : RootRoute → Scope → Bool) where
  -- the two messages of `_send_missing_token_error`
  missing_token_response : ℕ → String → List Message
  missing_token_response status www_authenticate =
      start status
        (("content-type", "application/json")
          ∷ ("content-length", packages.headers.content_length unauthorized_body)
          ∷ ("www-authenticate", www_authenticate)
          ∷ [])
        none
      ∷ body unauthorized_body false
      ∷ []

  send_reply : Asgi → Scope → McpReply → Result (List Message)
  unfolding missing_token_response
  send_reply app scope (auth_error status error description) =
      ok (mcp.auth_error_response status error description)
  send_reply app scope (missing_token status www_authenticate error) =
      ok (missing_token_response status www_authenticate)
  send_reply app scope served = app scope

  -- The guard around an application: the new value of its field, and the answer.
  guarded : Asgi → Bool → Scope → Bool × Result (List Message)
  unfolding send_reply
  guarded app provided scope =
      let (provided', reply) =
        bearer_middleware mcp.required_scopes mcp.resource_metadata_url provided
          (mcp.authenticated scope) in
      (provided', send_reply app scope reply)

  behind_provider :
      Option (Result (List Message)) → Asgi → Bool → Scope → Bool × Result (List Message)
  unfolding guarded
  behind_provider (some answer) app provided scope = (provided, answer)
  behind_provider none app provided scope = guarded app provided scope

  -- The MCP application over the raw application that its tools call.
  unfoldable pub mcp_app : Option OidcProxy → Asgi → Bool → Scope → Bool × Result (List Message)
  unfolding behind_provider
  mcp_app none raw provided scope = (provided, mcp.tools raw scope)
  mcp_app (some auth) raw provided scope =
      behind_provider (mcp.provider_routes scope) (mcp.tools raw) provided scope

  mounted : Option McpServer → Asgi → Bool → Scope → Bool × Result (List Message)
  unfolding mcp_app
  mounted none raw provided scope = (provided, endpoints.no_route scope)
  mounted (some server) raw provided scope = mcp_app server.auth raw provided scope

  readyz_response : Bool → List Message
  readyz_response true = packages.json_response 200 "{\"status\":\"ready\"}"
  readyz_response false =
      packages.json_response 503
        "{\"status\":\"not-ready\",\"reason\":\"pygeoapi OpenAPI document missing\"}"

  -- `ready` says whether the OpenAPI file is there.
  dispatch_to :
      RootApp → Bool → Asgi → Bool → Scope → Option RootRoute → Bool × Result (List Message)
  unfolding mounted readyz_response
  dispatch_to app ready pygeoapi provided scope none = (provided, endpoints.no_route scope)
  dispatch_to app ready pygeoapi provided scope (some (default_route route)) =
      (provided, endpoints.endpoint route scope)
  dispatch_to app ready pygeoapi provided scope (some (discovery route)) =
      (provided, endpoints.endpoint route scope)
  dispatch_to app ready pygeoapi provided scope (some healthz) =
      (provided, ok (packages.json_response 200 "{\"status\":\"ok\"}"))
  dispatch_to app ready pygeoapi provided scope (some readyz) =
      (provided, ok (readyz_response ready))
  dispatch_to app ready pygeoapi provided scope (some (api_mount path)) =
      (provided, serve packages cfg app.api.layers pygeoapi scope)
  dispatch_to app ready pygeoapi provided scope (some mcp_mount) =
      mounted app.mcp pygeoapi provided scope

  unfoldable pub simple : Scope → Result (List Message) → Result (List Message)
  simple scope (ok messages) = ok ((endpoints.cors cors_arguments).simple_response scope messages)
  simple scope (err e) = err e

  -- The CORS layer, around what the routes make of a request.
  unfoldable pub with_cors :
      Option (List Message)
      → Bool
      → Scope
      → Bool × Result (List Message)
      → Bool × Result (List Message)
  unfolding simple
  with_cors (some messages) provided scope inner = (provided, ok messages)
  with_cors none provided scope (provided', answer) = (provided', simple scope answer)

  -- One request: the new value of the field of the MCP guard, and the messages of the answer.
  unfoldable pub answer_request :
      RootApp → Bool → Asgi → Bool → Scope → Bool × Result (List Message)
  unfolding with_cors dispatch_to
  answer_request app ready pygeoapi provided scope =
      let seen = if app.rewrites_mcp then rewrite_mount_root scope else scope in
      with_cors ((endpoints.cors cors_arguments).preflight_response seen) provided seen
        (dispatch_to app ready pygeoapi provided seen (handle matches app scope))

  -- Requests one after the other, whatever the field is at first. What pygeoapi answers may depend on
  -- the `earlier` requests, the last one first.
  unfoldable pub answer_all :
      RootApp
      → Bool
      → (List Scope → Asgi)
      → Bool
      → (earlier scopes : List Scope) → List (Result (List Message))
  unfolding answer_request
  answer_all app ready pygeoapi provided earlier [] = []
  answer_all app ready pygeoapi provided earlier (scope ∷ scopes) =
      let (provided', answer) = answer_request app ready (pygeoapi earlier) provided scope in
      answer ∷ answer_all app ready pygeoapi provided' (scope ∷ earlier) scopes
