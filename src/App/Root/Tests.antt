-- ===== src/App/Root/Tests.antt =====
-- A start with the MCP server, and a request to a probe.
use fastgeoapi.Base.{◌≡◌, refl, Bool, true, false, [], ◌∷◌, ok, ◌==◌, All}
use fastgeoapi.Middleware.Scope.{Scope, http}
use fastgeoapi.App.Config.{is_set}
use fastgeoapi.App.Modes.{create_app}
use fastgeoapi.App.Modes.Exclusive.{described}
use fastgeoapi.Middleware.Proxy.{rewrite_mount_root}
use fastgeoapi.App.McpServer.{create_mcp_server, mount_well_known}
use fastgeoapi.App.Tests.{cfg, around, server}
use fastgeoapi.Text.{ends_with}
use fastgeoapi.App.Startup.{build_pygeoapi_subapp}
use fastgeoapi.App.Startup.Tests.{route, pygeoapi}
use fastgeoapi.App.Root.{
  RootRoute, default_route, discovery, healthz, readyz, mcp_mount, api_mount, RootApp, World,
  start_app, discovery_routes, mount_mcp, root_of, route_for, handle,
}
use fastgeoapi.App.Root.Routing.{is_front, behind, routed, start_app-handle}

abbrev pub world : World
world = record {
  default_routes = route "/docs" "docs" ∷ [];
  import_app = ok pygeoapi;
  new_route = route;
  around = around;
  well_known_routes = route "/.well-known/oauth-protected-resource/mcp" "metadata" ∷ [];
}

unfoldable pub matches : RootRoute → Scope → Bool
matches (default_route r) scope = r.path == scope.path
matches (discovery r) scope = r.path == scope.path
matches healthz scope = scope.path == "/healthz"
matches readyz scope = scope.path == "/readyz"
matches mcp_mount scope = scope.path == "/mcp/"
matches (api_mount path) scope = scope.path == path

abbrev pub probe : Scope
probe = record { type = http; path = "/healthz"; method = "GET"; headers = [] }

abbrev pub started : RootApp
started = mount_mcp world cfg server (root_of world cfg (described cfg) true)

pub starts : start_app world cfg true ≡ ok started
unfolding start_app create_mcp_server create_app build_pygeoapi_subapp is_set
starts = refl

unmatched : All (λ r. is_front r ≡ true → matches r (routed started probe) ≡ false) started.routes
unfolding mount_mcp root_of discovery_routes is_front matches ends_with mount_well_known
    rewrite_mount_root
unmatched = (λ h. refl, (λ h. refl, (λ h. cc, (λ h. cc, (λ h. cc, (λ h. cc, tt))))))

start_app-handle_example :
    (handle matches started probe ≡ route_for matches (behind cfg started) (routed started probe))
    × (create_app cfg ≡ ok started.api)
    × (started.has_lifespan ≡ started.rewrites_mcp)
start_app-handle_example = start_app-handle matches world cfg true started probe starts unmatched
