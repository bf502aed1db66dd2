-- ===== src/App/Program/Sealed.antt =====
-- Without credentials there is no way to pygeoapi.
use fastgeoapi.Base.{
  ◌≡◌, inl, inr, refl, ap, ◌∙◌, Bool, true, false, Option, none, some, List, [], ◌∷◌, Result, ok,
  arith, >>=-eq-ok, Option-cases,
}
use fastgeoapi.Middleware.Scope.{Scope}
use fastgeoapi.Middleware.Responder.{Message}
use fastgeoapi.Mcp.Bearer.{McpScope, respond, bearer_middleware}
use fastgeoapi.App.Config.{Config}
use fastgeoapi.App.Modes.{create_app}
use fastgeoapi.App.McpServer.{McpServer, is_auth_configured, mcp_auth, create_mcp_server}
use fastgeoapi.App.McpServer.FailClosed.{create_mcp_server_auth}
use fastgeoapi.App.Stack.{Asgi, Packages, LayerSettings}
use fastgeoapi.App.Stack.Isolation.{IsAnonymous, IsGuarded, serve_isolated}
use fastgeoapi.App.Root.{
  RootRoute, default_route, discovery, healthz, readyz, mcp_mount, api_mount, RootApp, World,
  root_of, create_root, mount_mcp, with_server, start_app, handle,
}
use fastgeoapi.App.Root.Routing.{routed, create_root-eq}
use fastgeoapi.App.Program.{
  McpPackages, Endpoints, send_reply, guarded, behind_provider, mcp_app, mounted, dispatch_to,
  cors_arguments, with_cors, answer_request, answer_all,
}

-- The API of a started application is that of `create_app`, and its MCP server, if it has one, has a
-- provider where the authentication is configured.
pub record IsSealed (cfg : Config) (app : RootApp) : Type 0 where
  pub made : create_app cfg ≡ ok app.api
  pub provided : (server : McpServer) → app.mcp ≡ some server → server.auth ≡ some (mcp_auth cfg)

create_root-IsSealed :
    (world : World) (cfg : Config) (app : RootApp)
    → create_root world cfg false ≡ ok app
    → IsSealed cfg app
unfolding root_of
create_root-IsSealed world cfg app h =
    let (api, made, is_root) = create_root-eq world cfg false app h in
    record {
      made = made ∙ ap (λ a. ok a.api) is_root;
      provided = λ server e.
          let absent : none ≡ some server = ap (λ a. a.mcp) is_root ∙ e in absurd (ground arith);
    }

with_server-IsSealed :
    (world : World) (cfg : Config) (server : Option McpServer) (app : RootApp)
    → ((s : McpServer) → server ≡ some s → s.auth ≡ some (mcp_auth cfg))
    → with_server world cfg server ≡ ok app
    → IsSealed cfg app
unfolding with_server mount_mcp root_of
with_server-IsSealed world cfg none app authed h = create_root-IsSealed world cfg app h
with_server-IsSealed world cfg (some server) app authed h =
    let (root, created, last) =
      >>=-eq-ok (create_root world cfg true) (λ root. ok (mount_mcp world cfg server root)) h in
    let (api, made, is_root) = create_root-eq world cfg true root created in
    let is_app : mount_mcp world cfg server root ≡ app = ground arith in
    record {
      made = made ∙ ap (λ a. ok a.api) is_root ∙ ap (λ a. ok a.api) is_app;
      provided = λ s e. authed s (ap (λ a. a.mcp) is_app ∙ e);
    }

pub start_app-IsSealed :
    (world : World) (cfg : Config) (with_mcp : Bool) (app : RootApp)
    → start_app world cfg with_mcp ≡ ok app
    → is_auth_configured cfg ≡ true
    → IsSealed cfg app
unfolding start_app
start_app-IsSealed world cfg true app h configured =
    let (server, created, started) =
      >>=-eq-ok (create_mcp_server none world.around cfg) (with_server world cfg) h in
    with_server-IsSealed world cfg server app
      (λ s e. ((create_mcp_server_auth none world.around cfg s (created ∙ ap ok e)).1).0 configured)
      started
start_app-IsSealed world cfg false app h configured = create_root-IsSealed world cfg app h

module _ (packages : Packages) (settings : LayerSettings) (mcp : McpPackages)
    (endpoints : Endpoints) (matches : RootRoute → Scope → Bool) where
  respond_isolated :
      (app other : Asgi) (provided : Bool) (scope : Scope) (seen : McpScope)
      → seen.is_authenticated ≡ false
      → send_reply packages settings mcp endpoints matches app scope
          (respond mcp.required_scopes mcp.resource_metadata_url provided seen)
        ≡ send_reply packages settings mcp endpoints matches other scope
            (respond mcp.required_scopes mcp.resource_metadata_url provided seen)
  unfolding respond send_reply
  respond_isolated app other true scope seen stranger = rw stranger refl
  respond_isolated app other false scope seen stranger = rw stranger refl

  -- The guard does not serve a request without an authenticated user.
  guarded_isolated :
      (app other : Asgi) (provided : Bool) (scope : Scope)
      → (mcp.authenticated scope).is_authenticated ≡ false
      → guarded packages settings mcp endpoints matches app provided scope
        ≡ guarded packages settings mcp endpoints matches other provided scope
  unfolding guarded bearer_middleware
  guarded_isolated app other provided scope stranger =
      let seen = mcp.authenticated scope in
      let provided' =
        (bearer_middleware mcp.required_scopes mcp.resource_metadata_url provided seen).0 in
      ap (λ r. (provided', r)) (respond_isolated app other provided' scope seen stranger)

  mounted_isolated :
      (server : Option McpServer) (cfg : Config) (pygeoapi other : Asgi) (provided : Bool)
      (scope : Scope)
      → ((s : McpServer) → server ≡ some s → s.auth ≡ some (mcp_auth cfg))
      → (mcp.authenticated scope).is_authenticated ≡ false
      → mounted packages settings mcp endpoints matches server pygeoapi provided scope
        ≡ mounted packages settings mcp endpoints matches server other provided scope
  unfolding mounted mcp_app behind_provider
  mounted_isolated none cfg pygeoapi other provided scope authed stranger = refl
  mounted_isolated (some server) cfg pygeoapi other provided scope authed stranger =
      rw (authed server refl) (elim (Option-cases (mcp.provider_routes scope)) [
        | inl guarded_route ↦
            rw guarded_route
              (guarded_isolated (mcp.tools pygeoapi) (mcp.tools other) provided scope stranger)
        | inr (answer, open_route) ↦ rw open_route refl
      ])

  -- What needs credentials and has none: no token of it is accepted and the SDK finds no user in it,
  -- and it is no event of the application's life, no OPTIONS request, and for no path that a skip
  -- pattern matches.
  pub record LacksCredentials (scope : Scope) : Type 0 where
    pub guarded : IsGuarded packages settings scope
    pub anonymous : IsAnonymous packages settings scope
    pub stranger : (mcp.authenticated scope).is_authenticated ≡ false

  dispatch_to_isolated :
      (cfg : Config) (app : RootApp) (ready provided : Bool) (pygeoapi other : Asgi) (scope : Scope)
      (route : Option RootRoute)
      → IsSealed cfg app
      → cfg.jwks_enabled ≡ true
      → LacksCredentials scope
      → dispatch_to packages settings mcp endpoints matches app ready pygeoapi provided scope route
        ≡ dispatch_to packages settings mcp endpoints matches app ready other provided scope route
  unfolding dispatch_to
  dispatch_to_isolated cfg app ready provided pygeoapi other scope none sealed on h = refl
  dispatch_to_isolated cfg app ready provided pygeoapi other scope (some (default_route r)) sealed
        on h =
      refl
  dispatch_to_isolated cfg app ready provided pygeoapi other scope (some (discovery r)) sealed on
        h =
      refl
  dispatch_to_isolated cfg app ready provided pygeoapi other scope (some healthz) sealed on h = refl
  dispatch_to_isolated cfg app ready provided pygeoapi other scope (some readyz) sealed on h = refl
  dispatch_to_isolated cfg app ready provided pygeoapi other scope (some (api_mount path)) sealed on
        h =
      ap (λ r. (provided, r))
        (serve_isolated packages settings cfg app.api scope pygeoapi other sealed.made on h.guarded
          h.anonymous).0
  dispatch_to_isolated cfg app ready provided pygeoapi other scope (some mcp_mount) sealed on h =
      mounted_isolated app.mcp cfg pygeoapi other provided scope sealed.provided h.stranger

  -- What the guard remembers does not depend on the application behind it.
  mounted_memory :
      (server : Option McpServer) (pygeoapi other : Asgi) (provided : Bool) (scope : Scope)
      → (mounted packages settings mcp endpoints matches server pygeoapi provided scope).0
        ≡ (mounted packages settings mcp endpoints matches server other provided scope).0
  unfolding mounted mcp_app behind_provider guarded
  mounted_memory none pygeoapi other provided scope = refl
  mounted_memory (some server) pygeoapi other provided scope = elim (Option-cases server.auth) [
    | inl open_server ↦ rw open_server refl
    | inr (auth, authed) ↦ elim (Option-cases (mcp.provider_routes scope)) [
      | inl guarded_route ↦ rw (authed, guarded_route) refl
      | inr (answer, open_route) ↦ rw (authed, open_route) refl
    ]
  ]

  dispatch_to_memory :
      (app : RootApp) (ready provided : Bool) (pygeoapi other : Asgi) (scope : Scope)
      (route : Option RootRoute)
      → (dispatch_to packages settings mcp endpoints matches app ready pygeoapi provided scope
          route).0
        ≡ (dispatch_to packages settings mcp endpoints matches app ready other provided scope
            route).0
  unfolding dispatch_to
  dispatch_to_memory app ready provided pygeoapi other scope none = refl
  dispatch_to_memory app ready provided pygeoapi other scope (some (default_route r)) = refl
  dispatch_to_memory app ready provided pygeoapi other scope (some (discovery r)) = refl
  dispatch_to_memory app ready provided pygeoapi other scope (some healthz) = refl
  dispatch_to_memory app ready provided pygeoapi other scope (some readyz) = refl
  dispatch_to_memory app ready provided pygeoapi other scope (some (api_mount path)) = refl
  dispatch_to_memory app ready provided pygeoapi other scope (some mcp_mount) =
      mounted_memory app.mcp pygeoapi other provided scope

  with_cors_memory :
      (preflight : Option (List Message)) (provided : Bool) (scope : Scope)
      (inner outer : Bool × Result (List Message))
      → inner.0 ≡ outer.0
      → (with_cors packages settings mcp endpoints matches preflight provided scope inner).0
        ≡ (with_cors packages settings mcp endpoints matches preflight provided scope outer).0
  unfolding with_cors
  with_cors_memory none provided scope inner outer h = h
  with_cors_memory (some messages) provided scope inner outer h = refl

  -- The answers to the requests without credentials are the same in both lists.
  abbrev pub AnswersAgree :
      RootApp → List Scope → List (Result (List Message)) → List (Result (List Message)) → Type 0
  AnswersAgree app [] [] [] = Unit
  AnswersAgree app (scope ∷ scopes) (a ∷ answers) (b ∷ others) =
      (LacksCredentials (routed app scope) → a ≡ b) × AnswersAgree app scopes answers others
  AnswersAgree app _ _ _ = ⊥

  answer_all_isolated :
      (cfg : Config) (app : RootApp) (ready provided : Bool) (pygeoapi other : List Scope → Asgi)
      (earlier scopes : List Scope)
      → IsSealed cfg app
      → cfg.jwks_enabled ≡ true
      → AnswersAgree app scopes
          (answer_all packages settings mcp endpoints matches app ready pygeoapi provided earlier
            scopes)
          (answer_all packages settings mcp endpoints matches app ready other provided earlier
            scopes)
  unfolding answer_all answer_request
  answer_all_isolated cfg app ready provided pygeoapi other earlier [] sealed on = tt
  answer_all_isolated cfg app ready provided pygeoapi other earlier (scope ∷ scopes) sealed on =
      let seen = routed app scope in
      let route = handle matches app scope in
      let preflight = (endpoints.cors cors_arguments).preflight_response seen in
      let layer = with_cors packages settings mcp endpoints matches preflight provided seen in
      let answer = λ (target : Asgi).
        dispatch_to packages settings mcp endpoints matches app ready target provided seen route in
      let same =
        with_cors_memory preflight provided seen (answer (pygeoapi earlier))
          (answer (other earlier))
          (dispatch_to_memory app ready provided (pygeoapi earlier) (other earlier) seen route) in
      rw⁻¹ same (
        λ h.
            ap (λ r. (layer r).1)
              (dispatch_to_isolated cfg app ready provided (pygeoapi earlier) (other earlier) seen
                route sealed on h),
        answer_all_isolated cfg app ready (layer (answer (pygeoapi earlier))).0 pygeoapi other
            (scope ∷ earlier) scopes sealed on,
      )

-- The program as a whole, in the JWKS mode with an OIDC endpoint, with or without the MCP server: two
-- programs that differ in pygeoapi only, whose answers may depend on all earlier requests, answer any
-- sequence of requests alike wherever a request needs credentials and has none, which is where no token
-- of it is accepted and the SDK finds no user in it, and where it is no OPTIONS request and no skip
-- pattern matches its path. So nothing of what pygeoapi holds or was sent shows in those answers.
pub answer_all-AnswersAgree :
    (packages : Packages) (settings : LayerSettings) (mcp : McpPackages) (endpoints : Endpoints)
    (matches : RootRoute → Scope → Bool) (world : World) (cfg : Config) (with_mcp : Bool)
    (app : RootApp) (ready provided : Bool) (pygeoapi other : List Scope → Asgi)
    (scopes : List Scope)
    → start_app world cfg with_mcp ≡ ok app
    → is_auth_configured cfg ≡ true
    → AnswersAgree packages settings mcp endpoints matches app scopes
        (answer_all packages settings mcp endpoints matches app ready pygeoapi provided [] scopes)
        (answer_all packages settings mcp endpoints matches app ready other provided [] scopes)
unfolding is_auth_configured
answer_all-AnswersAgree packages settings mcp endpoints matches world cfg with_mcp app ready
      provided pygeoapi other scopes started configured =
    answer_all_isolated packages settings mcp endpoints matches cfg app ready provided pygeoapi
      other [] scopes (start_app-IsSealed world cfg with_mcp app started configured) (ground arith)
