-- ===== src/App/Root.antt =====
-- The root application of app/main.py: the probes, the mounts and their order, and the start of the
-- whole program. Starlette's router is a parameter, as the test whether a route matches a request.
pub mod Routing
pub mod Tests
use fastgeoapi.Base.{
  ℕ, String, Bool, true, false, Option, none, some, List, [], ◌∷◌, ◌++◌, map, Result, ok, err,
  if◌then◌else◌,
}
use fastgeoapi.Base.Dict
use fastgeoapi.Base.Dict.{Dict}
use fastgeoapi.Base.Errors.{◌>>=◌}
use fastgeoapi.Middleware.Scope.{Scope}
use fastgeoapi.Middleware.Proxy.{rewrite_mount_root}
use fastgeoapi.App.Config.{Config}
use fastgeoapi.App.Modes.{SubApp, create_app}
use fastgeoapi.App.McpServer.{McpServer, Surroundings, create_mcp_server, Route, mount_well_known}
use fastgeoapi.Mcp.Settings.{OidcProxy}
use fastgeoapi.App.Startup.{PygeoapiApp, build_pygeoapi_subapp}

-- A route that FastAPI has by itself, a discovery route, a probe, or a mount.
pub data RootRoute : Type 0 where
  default_route discovery : Route → RootRoute
  healthz readyz mcp_mount : RootRoute
  api_mount : (path : String) → RootRoute

-- `rewrites_mcp` is the layer MCPMountRootRewriteMiddleware, and `has_lifespan` the lifespan of the
-- MCP client; `mcp` is the server of the application at /mcp.
pub record RootApp : Type 0 where
  pub routes : List RootRoute
  pub api : SubApp
  pub rewrites_mcp : Bool
  pub has_lifespan : Bool
  pub mcp : Option McpServer

-- What the start meets: FastAPI's own routes, the import of pygeoapi, Starlette's constructor of a
-- route, the parts of the MCP server, and the discovery routes of its provider.
pub record World : Type 0 where
  pub default_routes : List Route
  pub import_app : Result PygeoapiApp
  pub new_route : String → String → Route
  pub around : Surroundings
  pub well_known_routes : List Route

module _ (world : World) (cfg : Config) where
  unfoldable pub root_of : SubApp → Bool → RootApp
  root_of api has_lifespan = record {
    routes =
        map default_route world.default_routes
        ++ healthz ∷ readyz ∷ api_mount cfg.fastgeoapi_context ∷ [];
    api = api;
    rewrites_mcp = false;
    has_lifespan = has_lifespan;
    mcp = none;
  }

  -- The whole of `create_app`.
  unfoldable pub create_root : Bool → Result RootApp
  unfolding root_of
  create_root has_lifespan = do
    subapp ← build_pygeoapi_subapp world.new_route world.import_app
    api ← create_app cfg
    ok (root_of api has_lifespan)

  -- only a provider has discovery routes
  unfoldable pub discovery_routes : Option OidcProxy → List RootRoute
  discovery_routes none = []
  discovery_routes (some auth) = map discovery (mount_well_known world.well_known_routes [])

  -- Each discovery route is inserted before all others, and the MCP application is mounted last.
  unfoldable pub mount_mcp : McpServer → RootApp → RootApp
  unfolding discovery_routes
  mount_mcp server app = record app {
    routes = discovery_routes server.auth ++ (app.routes ++ mcp_mount ∷ []);
    rewrites_mcp = true;
    mcp = some server;
  }

  unfoldable pub with_server : Option McpServer → Result RootApp
  unfolding create_root mount_mcp
  with_server none = create_root false
  with_server (some server) = create_root true >>= λ app. ok (mount_mcp server app)

  -- The end of the module, after the OpenAPI file is there. `with_mcp` is FASTGEOAPI_WITH_MCP.
  unfoldable pub start_app : Bool → Result RootApp
  unfolding with_server
  start_app with_mcp =
      if with_mcp
      then create_mcp_server none world.around cfg >>= with_server
      else create_root false

module _ (matches : RootRoute → Scope → Bool) where
  -- the first route that matches
  unfoldable pub route_for : List RootRoute → Scope → Option RootRoute
  route_for [] scope = none
  route_for (route ∷ routes) scope =
      let later = route_for routes scope in if matches route scope then some route else later

  unfoldable pub handle : RootApp → Scope → Option RootRoute
  unfolding route_for
  handle app scope =
      route_for app.routes (if app.rewrites_mcp then rewrite_mount_root scope else scope)

-- The path that the readiness probe looks at, and the status that it answers with.
unfoldable pub readiness_path : (String → Bool) → (String → String) → String → String
readiness_path is_absolute in_cwd openapi_path =
    if is_absolute openapi_path then openapi_path else in_cwd openapi_path

found : Option String → ℕ
found none = 503
found (some content) = 200

unfoldable pub readyz_status : (String → Bool) → (String → String) → String → Dict String → ℕ
unfolding readiness_path found
readyz_status is_absolute in_cwd openapi_path files =
    found (Dict.get (readiness_path is_absolute in_cwd openapi_path) files)
