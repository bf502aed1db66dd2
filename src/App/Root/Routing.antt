-- ===== src/App/Root/Routing.antt =====
-- Which route answers.
use fastgeoapi.Base.{
  String, ◌≡◌, inl, inr, refl, sym, Bool, true, false, Option, none, some, List, [], ◌∷◌, ◌++◌, map,
  ok, All, Bool-cases, >>=-eq-ok, ap, if◌then◌else◌,
}
use fastgeoapi.Base.Dict.{Dict}
use fastgeoapi.Base.Errors.{◌>>=◌}
use fastgeoapi.Middleware.Scope.{Scope}
use fastgeoapi.Middleware.Proxy.{rewrite_mount_root}
use fastgeoapi.App.Config.{Config}
use fastgeoapi.App.Modes.{SubApp, create_app}
use fastgeoapi.App.McpServer.{Route, McpServer, create_mcp_server, mount_well_known}
use fastgeoapi.Mcp.Settings.{OidcProxy}
use fastgeoapi.App.Startup.{build_pygeoapi_subapp}
use fastgeoapi.App.Generator.{Paths, Generation, ensure_openapi_file_exists}
use fastgeoapi.App.Generator.Failures.{ensure_openapi_file_exists-content}
use fastgeoapi.App.Root.{
  RootRoute, default_route, discovery, healthz, readyz, mcp_mount, api_mount, RootApp, World,
  root_of, discovery_routes, create_root, mount_mcp, with_server, start_app, route_for, handle,
  readiness_path, readyz_status, found,
}

-- A discovery route, or a route of FastAPI.
unfoldable pub is_front : RootRoute → Bool
is_front (default_route route) = true
is_front (discovery route) = true
is_front healthz = false
is_front readyz = false
is_front mcp_mount = false
is_front (api_mount path) = false

-- The routes from the probes on.
unfoldable pub behind : Config → RootApp → List RootRoute
behind cfg app =
    healthz
    ∷ readyz
    ∷ api_mount cfg.fastgeoapi_context
    ∷ (if app.rewrites_mcp then mcp_mount ∷ [] else [])

-- The scope that the router gets.
abbrev pub routed : RootApp → Scope → Scope
routed app scope = if app.rewrites_mcp then rewrite_mount_root scope else scope

FrontFirst : Config → RootApp → Type 0
FrontFirst cfg app =
    (front : List RootRoute) × All (λ route. is_front route ≡ true) front
    × (app.routes ≡ front ++ behind cfg app)
    × (create_app cfg ≡ ok app.api)
    × (app.has_lifespan ≡ app.rewrites_mcp)

defaults_front :
    (routes : List Route) → All (λ route. is_front route ≡ true) (map default_route routes)
unfolding is_front
defaults_front [] = tt
defaults_front (route ∷ routes) = (refl, defaults_front routes)

discovery_front :
    (routes : List Route) → All (λ route. is_front route ≡ true) (map discovery routes)
unfolding is_front
discovery_front [] = tt
discovery_front (route ∷ routes) = (refl, discovery_front routes)

pub create_root-eq :
    (world : World) (cfg : Config) (lifespan : Bool) (app : RootApp)
    → create_root world cfg lifespan ≡ ok app
    → (api : SubApp) × (create_app cfg ≡ ok api) × (root_of world cfg api lifespan ≡ app)
unfolding create_root
create_root-eq world cfg lifespan app h =
    let (subapp, _, rest) =
      >>=-eq-ok (build_pygeoapi_subapp world.new_route world.import_app)
        (λ subapp. create_app cfg >>= λ api. ok (root_of world cfg api lifespan)) h in
    let (api, made, last) =
      >>=-eq-ok (create_app cfg) (λ api. ok (root_of world cfg api lifespan)) rest in
    (api, made, cc)

create_root-FrontFirst :
    (world : World) (cfg : Config) (app : RootApp)
    → create_root world cfg false ≡ ok app
    → FrontFirst cfg app
unfolding FrontFirst root_of behind
create_root-FrontFirst world cfg app h =
    let (api, made, is_root) = create_root-eq world cfg false app h in
    rw⁻¹ is_root (
      map default_route world.default_routes,
      defaults_front world.default_routes,
      refl,
      made,
      refl,
    )

All_append :
    (xs ys : List RootRoute)
    → All (λ route. is_front route ≡ true) xs
    → All (λ route. is_front route ≡ true) ys
    → All (λ route. is_front route ≡ true) (xs ++ ys)
All_append [] ys hx hy = hy
All_append (x ∷ xs) ys (h, hx) hy = (h, All_append xs ys hx hy)

append_assoc3 : (xs ys zs ws : List RootRoute) → xs ++ ((ys ++ zs) ++ ws) ≡ (xs ++ ys) ++ (zs ++ ws)
append_assoc3 [] [] zs ws = refl
append_assoc3 [] (y ∷ ys) zs ws = ap (λ rest. y ∷ rest) (append_assoc3 [] ys zs ws)
append_assoc3 (x ∷ xs) ys zs ws = ap (λ rest. x ∷ rest) (append_assoc3 xs ys zs ws)

discovery_routes_front :
    (world : World) (cfg : Config) (auth : Option OidcProxy)
    → All (λ route. is_front route ≡ true) (discovery_routes world cfg auth)
unfolding discovery_routes
discovery_routes_front world cfg none = tt
discovery_routes_front world cfg (some auth) =
    discovery_front (mount_well_known world.well_known_routes [])

with_server-FrontFirst :
    (world : World) (cfg : Config) (server : Option McpServer) (app : RootApp)
    → with_server world cfg server ≡ ok app
    → FrontFirst cfg app
unfolding with_server FrontFirst root_of behind mount_mcp
with_server-FrontFirst world cfg none app h = create_root-FrontFirst world cfg app h
with_server-FrontFirst world cfg (some server) app h =
    let (root, created, mounted) =
      >>=-eq-ok (create_root world cfg true) (λ root. ok (mount_mcp world cfg server root)) h in
    let (api, made, is_root) = create_root-eq world cfg true root created in
    let starts : mount_mcp world cfg server (root_of world cfg api true) ≡ app = cc in
    rw⁻¹ starts (
      discovery_routes world cfg server.auth ++ map default_route world.default_routes,
      All_append _ _ (discovery_routes_front world cfg server.auth)
          (defaults_front world.default_routes),
      append_assoc3 _ (map default_route world.default_routes) _ _,
      made,
      refl,
    )

start_app-FrontFirst :
    (world : World) (cfg : Config) (with_mcp : Bool) (app : RootApp)
    → start_app world cfg with_mcp ≡ ok app
    → FrontFirst cfg app
unfolding start_app
start_app-FrontFirst world cfg true app h =
    let (server, created, started) =
      >>=-eq-ok (create_mcp_server none world.around cfg) (with_server world cfg) h in
    with_server-FrontFirst world cfg server app started
start_app-FrontFirst world cfg false app h = create_root-FrontFirst world cfg app h

module _ (matches : RootRoute → Scope → Bool) where
  route_for-front :
      (front rest : List RootRoute) (scope : Scope)
      → All (λ route. is_front route ≡ true) front
      → All (λ route. is_front route ≡ true → matches route scope ≡ false) (front ++ rest)
      → route_for matches (front ++ rest) scope ≡ route_for matches rest scope
  unfolding route_for
  route_for-front [] rest scope _ _ = refl
  route_for-front (route ∷ front) rest scope (h, hs) (missed, others) =
      rw (missed h) (route_for-front front rest scope hs others)

  -- In an application that started, whatever its modes of authentication, a request that neither a
  -- discovery route nor a route of FastAPI matches goes to the first that matches of the liveness
  -- probe, the readiness probe, the API under its context and, where there is one, the MCP
  -- application, after the rewriting of the bare MCP path. The API is the one that `create_app`
  -- builds, and the application closes the MCP client exactly where it has the MCP parts.
  pub start_app-handle :
      (world : World) (cfg : Config) (with_mcp : Bool) (app : RootApp) (scope : Scope)
      → start_app world cfg with_mcp ≡ ok app
      → All (λ route. is_front route ≡ true → matches route (routed app scope) ≡ false) app.routes
      → (handle matches app scope ≡ route_for matches (behind cfg app) (routed app scope))
        × (create_app cfg ≡ ok app.api)
        × (app.has_lifespan ≡ app.rewrites_mcp)
  unfolding handle FrontFirst behind
  start_app-handle world cfg with_mcp app scope h unmatched =
      let (front, fronts, routes, made, closes) = start_app-FrontFirst world cfg with_mcp app h in
      (
        rw routes (
            route_for-front front (behind cfg app) (routed app scope) fronts
              (rw routes at unmatched)),
        made,
        closes,
      )

readiness_path-in_cwd :
    (is_absolute : String → Bool) (in_cwd : String → String) (path : String)
    → (is_absolute path ≡ true → in_cwd path ≡ path)
    → readiness_path is_absolute in_cwd path ≡ in_cwd path
unfolding readiness_path
readiness_path-in_cwd is_absolute in_cwd path absolute = elim (Bool-cases (is_absolute path)) [
  | inl given ↦ rw given (sym (absolute given))
  | inr given ↦ rw given refl
]

-- Where the generator returned a path, the readiness probe answers 200 on the files that it left,
-- if its path is the one that the settings name: an absolute path is not changed by the working
-- directory.
pub readyz_status_ready :
    (is_absolute : String → Bool) (generation : Generation) (cfg : Paths) (files : Dict String)
    (path : String)
    → (is_absolute cfg.pygeoapi_openapi ≡ true
        → generation.in_cwd cfg.pygeoapi_openapi ≡ cfg.pygeoapi_openapi)
    → (ensure_openapi_file_exists generation cfg files).0 ≡ ok path
    → readyz_status is_absolute generation.in_cwd cfg.pygeoapi_openapi
        (ensure_openapi_file_exists generation cfg files).1
      ≡ 200
unfolding readyz_status found
readyz_status_ready is_absolute generation cfg files path absolute returned =
    let (content, _, stored, _) =
      ensure_openapi_file_exists-content generation cfg files path returned in
    rw (readiness_path-in_cwd is_absolute generation.in_cwd cfg.pygeoapi_openapi absolute, stored)
      refl
