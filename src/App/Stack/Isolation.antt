-- ===== src/App/Stack/Isolation.antt =====
-- Who reaches pygeoapi in the JWKS mode.
use fastgeoapi.Base.{
  ◌≢◌, List, Result, err, assertion_error, ◌≡◌, inl, inr, refl, ap, sym, ◌∙◌, true, false, none, [],
  ◌∷◌, ok, arith, ◌==◌, Bool-cases, if◌then◌else◌,
}
use fastgeoapi.Base.Errors.{◌>>=◌}
use fastgeoapi.Json.{Fields}
use fastgeoapi.Auth.Jwks.Accepts.{Authenticates, authenticate_iff}
use fastgeoapi.Middleware.Scope.{Scope, ScopeType, http, lifespan, ScopeType-cases, header}
use fastgeoapi.Middleware.Oauth2.{skip_patterns, should_skip_endpoint}
use fastgeoapi.Middleware.Oauth2.Gate.{oauth2_middleware-websocket}
use fastgeoapi.Middleware.Protected.{
  jwks_api, jwks_authentication, jwks_config, jwks_api_guard, admitted,
}
use fastgeoapi.Middleware.Responder.{Message, is_openapi_route}
use fastgeoapi.App.Config.{Config}
use fastgeoapi.App.Modes.{
  SubApp, oauth2, http_bearer, oauth2_middleware, openapi_security_middleware, create_app,
}
use fastgeoapi.App.Modes.Exclusive.{
  enabled_modes, IsConsistent, described, proxy_layers, create_app_iff,
}
use fastgeoapi.App.Stack.{
  Asgi, Packages, LayerSettings, oauth2_layer, secured, openapi_layer, forwarded_links_layer, serve,
}

-- The layers of the JWKS mode.
jwks_layers :
    (cfg : Config)
    → IsConsistent cfg
    → cfg.jwks_enabled ≡ true
    → (described cfg).layers
      ≡ openapi_security_middleware (oauth2 cfg.oauth2_token_endpoint ∷ http_bearer ∷ [])
        ∷ oauth2_middleware
        ∷ proxy_layers cfg
unfolding enabled_modes
jwks_layers cfg c on =
    let off : cfg.opa_enabled ≡ false = ground (arith, c.exclusive) in rw (off, on) refl

-- No token of the request is accepted.
abbrev pub IsAnonymous : Packages → LayerSettings → Scope → Type 0
IsAnonymous packages settings scope =
    (claims : Fields)
    → ¬ Authenticates packages.jose (jwks_config settings.jwks)
        (header "authorization" scope.headers) claims

-- A request or a websocket that the layer does not let pass: it is no OPTIONS request, and no pattern
-- matches its path.
pub record IsGuarded (packages : Packages) (settings : LayerSettings) (scope : Scope) : Type 0 where
  pub alive : scope.type ≢ lifespan
  pub method : (scope.method == "OPTIONS") ≡ false
  pub protected :
      should_skip_endpoint packages.re_match scope.path
        (skip_patterns settings.fastgeoapi_context none)
      ≡ false

-- What the layer makes of what it does not let pass: 401, and the assertion of Request that the scope
-- is one of HTTP.
abbrev pub refusal : Packages → ScopeType → Result (List Message)
refusal packages http = ok (packages.json_response 401 "{\"message\":\"Unauthenticated\"}")
refusal packages _ = err assertion_error

oauth2_layer_unauthorized :
    (packages : Packages) (settings : LayerSettings) (scope : Scope) (app : Asgi)
    → IsGuarded packages settings scope
    → scope.type ≡ http
    → IsAnonymous packages settings scope
    → oauth2_layer packages settings app scope ≡ refusal packages scope.type
unfolding oauth2_layer
oauth2_layer_unauthorized packages settings scope app g request anonymous =
    elim (jwks_api_guard packages.jose settings.jwks packages.re_match
      (skip_patterns settings.fastgeoapi_context none) scope request g.method g.protected) [
        | inl (claims, accepted, answered) ↦ absurd (anonymous claims accepted)
        | inr (refused, answered) ↦ rw answered (sym (ap (refusal packages) request))
      ]

oauth2_layer_refuses :
    (packages : Packages) (settings : LayerSettings) (scope : Scope) (app : Asgi)
    → IsGuarded packages settings scope
    → IsAnonymous packages settings scope
    → oauth2_layer packages settings app scope ≡ refusal packages scope.type
unfolding oauth2_layer jwks_api
oauth2_layer_refuses packages settings scope app g anonymous = elim (ScopeType-cases scope.type) [
  | inl life ↦ absurd (g.alive life)
  | inr (inl socket) ↦
      rw
        (oauth2_middleware-websocket packages.re_match
          (skip_patterns settings.fastgeoapi_context none)
          (jwks_authentication packages.jose settings.jwks ∷ []) scope socket)
        (sym (ap (refusal packages) socket))
  | inr (inr request) ↦ oauth2_layer_unauthorized packages settings scope app g request anonymous
]

oauth2_layer_admits :
    (packages : Packages) (settings : LayerSettings) (scope : Scope) (app : Asgi) (claims : Fields)
    → scope.type ≡ http
    → Authenticates packages.jose
        (jwks_config settings.jwks)
        (header "authorization" scope.headers)
        claims
    → oauth2_layer packages settings app scope ≡ app scope
unfolding oauth2_layer
oauth2_layer_admits packages settings scope app claims request accepted =
    rw
      (admitted packages.jose settings.jwks packages.re_match
        (skip_patterns settings.fastgeoapi_context none) scope claims request
        ((authenticate_iff packages.jose (jwks_config settings.jwks)
            (header "authorization" scope.headers) claims).1
          accepted))
      refl

module _ (packages : Packages) (settings : LayerSettings) (cfg : Config) (app : SubApp)
    (built : create_app cfg ≡ ok app) (on : cfg.jwks_enabled ≡ true) where
  built_layers :
      app.layers
      ≡ openapi_security_middleware (oauth2 cfg.oauth2_token_endpoint ∷ http_bearer ∷ [])
        ∷ oauth2_middleware
        ∷ proxy_layers cfg
  built_layers =
      let (consistent, same) = (create_app_iff cfg app).0 built in
      ap (λ a. a.layers) same ∙ jwks_layers cfg consistent on

-- In the JWKS mode a request or a websocket that carries no token that is accepted, is no OPTIONS
-- request and has a path that no skip pattern matches does not reach pygeoapi: what comes of it is the
-- same whatever pygeoapi is. Except at the route of the OpenAPI document, a request is answered 401, and
-- a websocket ends in AssertionError.
pub serve_isolated :
    (packages : Packages) (settings : LayerSettings) (cfg : Config) (app : SubApp) (scope : Scope)
    (pygeoapi other : Asgi)
    → create_app cfg ≡ ok app
    → cfg.jwks_enabled ≡ true
    → IsGuarded packages settings scope
    → IsAnonymous packages settings scope
    → (serve packages settings app.layers pygeoapi scope
        ≡ serve packages settings app.layers other scope)
      × (is_openapi_route settings.fastgeoapi_context scope ≡ false
          → serve packages settings app.layers pygeoapi scope ≡ refusal packages scope.type)
unfolding serve openapi_layer
serve_isolated packages settings cfg app scope pygeoapi other built on g anonymous =
    let inner = serve packages settings (proxy_layers cfg) pygeoapi in
    let inner' = serve packages settings (proxy_layers cfg) other in
    rw
      (
        built_layers packages settings cfg app built on,
        oauth2_layer_refuses packages settings scope inner g anonymous,
        oauth2_layer_refuses packages settings scope inner' g anonymous,
      )
      (refl, λ plain. rw plain refl)

-- pygeoapi, behind the layer of the links where the configuration has a reverse proxy.
abbrev pub inside : Packages → LayerSettings → Config → Asgi → Asgi
inside packages settings cfg pygeoapi =
    if cfg.fastgeoapi_reverse_proxy
    then forwarded_links_layer packages settings pygeoapi
    else pygeoapi

serve-proxy_layers :
    (packages : Packages) (settings : LayerSettings) (cfg : Config) (pygeoapi : Asgi)
    → serve packages settings (proxy_layers cfg) pygeoapi ≡ inside packages settings cfg pygeoapi
unfolding serve
serve-proxy_layers packages settings cfg pygeoapi = elim (Bool-cases cfg.fastgeoapi_reverse_proxy) [
  | inl proxied ↦ rw proxied refl
  | inr direct ↦ rw direct refl
]

-- In the JWKS mode an HTTP request whose token is accepted is answered as pygeoapi answers it, behind the
-- layer of the links where there is a reverse proxy; at the route of the OpenAPI document the answer
-- gets the two security schemes of the mode.
pub serve_admitted :
    (packages : Packages) (settings : LayerSettings) (cfg : Config) (app : SubApp) (scope : Scope)
    (pygeoapi : Asgi) (claims : Fields)
    → create_app cfg ≡ ok app
    → cfg.jwks_enabled ≡ true
    → scope.type ≡ http
    → Authenticates packages.jose
        (jwks_config settings.jwks)
        (header "authorization" scope.headers)
        claims
    → let answer = inside packages settings cfg pygeoapi scope in
      serve packages settings app.layers pygeoapi scope ≡ (
        if is_openapi_route settings.fastgeoapi_context scope
        then answer
          >>= secured packages settings (oauth2 cfg.oauth2_token_endpoint ∷ http_bearer ∷ [])
        else answer)
unfolding serve openapi_layer
serve_admitted packages settings cfg app scope pygeoapi claims built on request accepted =
    rw
      (
        built_layers packages settings cfg app built on,
        oauth2_layer_admits packages settings scope
            (serve packages settings (proxy_layers cfg) pygeoapi) claims request accepted,
        serve-proxy_layers packages settings cfg pygeoapi,
      )
      refl
